-- ===== src/Ffmpeg.antt =====
-- internal/ffmpeg/args.go: the command line of a stream's ffmpeg.
pub mod Models
pub mod Urls
pub mod Template
pub mod Args
