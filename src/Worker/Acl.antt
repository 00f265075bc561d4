-- ===== src/Worker/Acl.antt =====
-- The address test of internal/srtworker/worker.go, with Go's net.IPNet.Contains.
use neo_transcoder.Base.{
  Bool, true, false, ◌&&◌, ◌||◌, Option, none, some, List, [], ◌∷◌, Bytes, ◌==◌, nat_eq, bytes_eq,
  if◌then◌else◌, length, take, drop,
}
use neo_transcoder.Worker.{IpNet}
use Prim.Native.Nat.{bit_and}

-- ip.To4(): an IPv4 address, also in its 16-byte form
is_v4_mapped : Bytes → Bool
is_v4_mapped ip = take 12 ip == 0 ∷ 0 ∷ 0 ∷ 0 ∷ 0 ∷ 0 ∷ 0 ∷ 0 ∷ 0 ∷ 0 ∷ 255 ∷ 255 ∷ []

to_four : Bytes → Option Bytes
unfolding is_v4_mapped
to_four ip =
    if length ip == 4
    then some ip
    else if length ip == 16 && is_v4_mapped ip
    then some (drop 12 ip)
    else none

four_or_all : Bytes → Bytes
unfolding to_four
four_or_all ip = elim (to_four ip) [ none ↦ ip | some v4 ↦ v4 ]

same_under_mask : Bytes → Bytes → Bytes → Bool
same_under_mask [] mask [] = true
same_under_mask (a ∷ as') (m ∷ ms) (b ∷ bs) =
    bit_and a m == bit_and b m && same_under_mask as' ms bs
same_under_mask _ _ _ = false

-- net.IPNet.Contains
unfoldable pub net_contains : IpNet → Bytes → Bool
unfolding four_or_all same_under_mask
net_contains network ip =
    let number = four_or_all network.ip in
    let mask =
      if length network.mask == 16 && length number == 4
      then drop 12 network.mask
      else network.mask in
    same_under_mask number mask (four_or_all ip)

unfoldable pub ip_allowed : Bytes → List IpNet → Bool
unfolding net_contains
ip_allowed ip [] = false
ip_allowed ip (network ∷ networks) = net_contains network ip || ip_allowed ip networks
