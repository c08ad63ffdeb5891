-- ===== src/FetchGuard/Ranges.antt =====
-- The IPv4 and IPv6 tests of src/fetch_guard.rs against tables of CIDR ranges.
use Prim.Native.Nat.{bit_and}
use stophammer.Common.{
  if◌then◌else◌, Bool-cases, inl, inr, ==_iff, ℕ, zero, suc, ◌+◌, ◌-◌, ◌*◌, ◌/◌, ◌^◌, ◌<◌, ◌≡◌,
  refl, sym, ap, Bool, true, false, not, ◌&&◌, ◌||◌, List, [], ◌∷◌, arith, leb, ◌==◌, any,
}
use stophammer.FetchGuard.Address.{
  Ipv4Addr, Ipv6Addr, IsOctets, is_loopback, is_private, is_link_local, is_broadcast,
  is_unspecified, is_multicast, documentation, benchmark, cgnat, is_public_ipv4, ula, link_local_v6,
  multicast_v6, documentation_v6, is_public_ipv6, is_unspecified_v6, is_loopback_v6, is_v4_mapped,
  is_v4_compatible, is_nat64,
}

-- A table of a Boolean test, and one row of it.
holds_on : (ℕ → Bool) → ℕ → Bool
holds_on test zero = true
holds_on test (suc bound) = if test bound then holds_on test bound else false

holds_at :
    (test : ℕ → Bool) (bound : ℕ) → holds_on test bound ≡ true → (x : ℕ) → x < bound → test x ≡ true
unfolding holds_on
holds_at test zero table x small = absurd (omega (arith, small))
holds_at test (suc bound) table x small = elim (Bool-cases (x == bound)) [
  | inl same ↦ let here : x ≡ bound = (==_iff x bound).0 same in rw here (ground arith)
  | inr other ↦ holds_at test bound (ground arith) x (ground arith)
]

bool_eq : Bool → Bool → Bool
bool_eq true b = b
bool_eq false b = not b

bool_eq_sound : (a b : Bool) → bool_eq a b ≡ true → a ≡ b
unfolding bool_eq
bool_eq_sound true b h = sym h
bool_eq_sound false b h = ground arith

-- The 32 bits of an address, and a range written as in `198.18.0.0/15`.
abbrev pub value : Ipv4Addr → ℕ
value a = ((a.o0 * 256 + a.o1) * 256 + a.o2) * 256 + a.o3

pub record Cidr : Type 0 where
  pub base : ℕ
  pub free_bits : ℕ

abbrev pub within : ℕ → Cidr → Bool
within x r = x / 2 ^ r.free_bits == r.base / 2 ^ r.free_bits

abbrev dotted : ℕ → ℕ → ℕ → ℕ → ℕ → Cidr
dotted a b c d prefix = record {
  base = ((a * 256 + b) * 256 + c) * 256 + d;
  free_bits = 32 - prefix;
}

-- The IPv4 ranges that the guard turns away.
abbrev pub reserved_v4 : List Cidr
reserved_v4 =
    dotted 127 0 0 0 8
    ∷ dotted 10 0 0 0 8
    ∷ dotted 172 16 0 0 12
    ∷ dotted 192 168 0 0 16
    ∷ dotted 169 254 0 0 16
    ∷ dotted 255 255 255 255 32
    ∷ dotted 0 0 0 0 32
    ∷ dotted 224 0 0 0 4
    ∷ dotted 192 0 2 0 24
    ∷ dotted 198 51 100 0 24
    ∷ dotted 203 0 113 0 24
    ∷ dotted 198 18 0 0 15
    ∷ dotted 100 64 0 0 10
    ∷ []

mask_fe : holds_on (λ x. bool_eq (bit_and x 0xFE == 18) (leb 18 x && leb x 19)) 256 ≡ true
unfolding holds_on bool_eq
mask_fe = refl

mask_C0 : holds_on (λ x. bool_eq (bit_and x 0xC0 == 64) (leb 64 x && leb x 127)) 256 ≡ true
unfolding holds_on bool_eq
mask_C0 = refl

mask_fe00 :
    holds_on (λ x. bool_eq (bit_and x 0xFE00 == 0xFC00) (leb 0xFC00 x && leb x 0xFDFF)) 65536 ≡ true
unfolding holds_on bool_eq
mask_fe00 = refl

mask_ffc0 :
    holds_on (λ x. bool_eq (bit_and x 0xFFC0 == 0xFE80) (leb 0xFE80 x && leb x 0xFEBF)) 65536 ≡ true
unfolding holds_on bool_eq
mask_ffc0 = refl

mask_ff00 :
    holds_on (λ x. bool_eq (bit_and x 0xFF00 == 0xFF00) (leb 0xFF00 x && leb x 0xFFFF)) 65536 ≡ true
unfolding holds_on bool_eq
mask_ff00 = refl

or_assoc : (a b c : Bool) → ((a || b) || c) ≡ (a || (b || c))
or_assoc true b c = refl
or_assoc false b c = refl

or_false : (a : Bool) → (a || false) ≡ a
or_false true = refl
or_false false = refl

module _ (a : Ipv4Addr) (h : IsOctets a) where
  loopback-within : is_loopback a ≡ within (value a) (dotted 127 0 0 0 8)
  unfolding is_loopback
  loopback-within = ground arith

  private-within : is_private a ≡ (
      within (value a) (dotted 10 0 0 0 8)
      || (within (value a) (dotted 172 16 0 0 12) || within (value a) (dotted 192 168 0 0 16)))
  unfolding is_private
  private-within = ground arith

  link_local-within : is_link_local a ≡ within (value a) (dotted 169 254 0 0 16)
  unfolding is_link_local
  link_local-within = ground arith

  broadcast-within : is_broadcast a ≡ within (value a) (dotted 255 255 255 255 32)
  unfolding is_broadcast
  broadcast-within = ground arith

  unspecified-within : is_unspecified a ≡ within (value a) (dotted 0 0 0 0 32)
  unfolding is_unspecified
  unspecified-within = ground arith

  multicast-within : is_multicast a ≡ within (value a) (dotted 224 0 0 0 4)
  unfolding is_multicast
  multicast-within = ground arith

  documentation-within : documentation a ≡ (
      within (value a) (dotted 192 0 2 0 24)
      || (within (value a) (dotted 198 51 100 0 24) || within (value a) (dotted 203 0 113 0 24)))
  unfolding documentation
  documentation-within = ground arith

  benchmark-within : benchmark a ≡ within (value a) (dotted 198 18 0 0 15)
  unfolding benchmark
  benchmark-within = rw (bool_eq_sound _ _ (holds_at _ 256 mask_fe a.o1 h.b1)) (ground arith)

  cgnat-within : cgnat a ≡ within (value a) (dotted 100 64 0 0 10)
  unfolding cgnat
  cgnat-within = rw (bool_eq_sound _ _ (holds_at _ 256 mask_C0 a.o1 h.b1)) (ground arith)

  -- An IPv4 address is public exactly when its 32 bits lie in no range of the table `reserved_v4`.
  -- The four octets are bytes.
  pub is_public_ipv4-reserved : is_public_ipv4 a ≡ not (any (within (value a)) reserved_v4)
  unfolding is_public_ipv4 any
  is_public_ipv4-reserved = simp (
    loopback-within, private-within, link_local-within, broadcast-within, unspecified-within,
    multicast-within, documentation-within, benchmark-within, cgnat-within, or_assoc, or_false,
  )

-- The IPv6 ranges: a base for the leading 32 bits, and the bits that are free.
abbrev pub reserved_v6 : List Cidr
reserved_v6 =
    record { base = 0xFC00 * 65536; free_bits = 25 }
    ∷ record { base = 0xFE80 * 65536; free_bits = 22 }
    ∷ record { base = 0xFF00 * 65536; free_bits = 24 }
    ∷ record { base = 0x2001 * 65536 + 0x0db8; free_bits = 0 }
    ∷ []

module _ (s : Ipv6Addr) (b0 : s.s0 < 65536) (b1 : s.s1 < 65536) where
  abbrev pub leading : ℕ
  leading = s.s0 * 65536 + s.s1

  ula-within : ula s ≡ within leading (record { base = 0xFC00 * 65536; free_bits = 25 })
  unfolding ula
  ula-within = rw (bool_eq_sound _ _ (holds_at _ 65536 mask_fe00 s.s0 b0)) (ground arith)

  link_local_v6-within :
      link_local_v6 s ≡ within leading (record { base = 0xFE80 * 65536; free_bits = 22 })
  unfolding link_local_v6
  link_local_v6-within = rw (bool_eq_sound _ _ (holds_at _ 65536 mask_ffc0 s.s0 b0)) (ground arith)

  multicast_v6-within :
      multicast_v6 s ≡ within leading (record { base = 0xFF00 * 65536; free_bits = 24 })
  unfolding multicast_v6
  multicast_v6-within = rw (bool_eq_sound _ _ (holds_at _ 65536 mask_ff00 s.s0 b0)) (ground arith)

  documentation_v6-within :
      documentation_v6 s ≡ within leading (record { base = 0x2001 * 65536 + 0x0db8; free_bits = 0 })
  unfolding documentation_v6
  documentation_v6-within = ground arith

  reserved_v6_lem :
      (ula s || (link_local_v6 s || (multicast_v6 s || documentation_v6 s)))
      ≡ any (within leading) reserved_v6
  unfolding any
  reserved_v6_lem =
      simp
        (ula-within, link_local_v6-within, multicast_v6-within, documentation_v6-within, or_false)

  -- An IPv6 address that is neither `::` nor `::1` and embeds no IPv4 address is public exactly when
  -- its leading 32 bits lie in none of fc00::/7, fe80::/10, ff00::/8 and 2001:db8::/32. The first two
  -- segments are 16-bit words.
  pub is_public_ipv6-reserved :
      is_unspecified_v6 s ≡ false
      → is_loopback_v6 s ≡ false
      → is_v4_mapped s ≡ false
      → is_v4_compatible s ≡ false
      → is_nat64 s ≡ false
      → is_public_ipv6 s ≡ not (any (within leading) reserved_v6)
  unfolding is_public_ipv6
  is_public_ipv6-reserved u l m c n = rw (u, l, m, c, n) (ap not reserved_v6_lem)
