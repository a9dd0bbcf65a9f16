-- ===== src/NetGuard/Blocks.antt =====
-- The guard and the special blocks of the address space, as ranges of numbers.
use wa_rs.Common.{
  ℕ, ◌+◌, ◌*◌, ◌-◌, ◌^◌, ◌<◌, ◌≡◌, Bool, true, false, not, ◌&&◌, ◌||◌, List, [], ◌∷◌, nat_eq, leb,
  ltb, any, arith, if◌then◌else◌,
}
use wa_rs.NetGuard.Address.{
  Ipv4Addr, Ipv6Addr, is_globally_routable_v4, is_globally_routable_v6, clear_low,
  is_unspecified_v6, is_loopback_v6, is_multicast_v6,
}

-- A block: its first address and the length of its prefix.
pub record Block : Type 0 where
  pub base : ℕ
  pub prefix : ℕ

-- An address of `width` bits lies in a block.
abbrev pub in_block : ℕ → ℕ → Block → Bool
in_block width n k = leb k.base n && ltb n (k.base + 2 ^ (width - k.prefix))

-- An address in dotted notation.
abbrev pub dotted : ℕ → ℕ → ℕ → ℕ → ℕ
dotted a b c d = a * 16777216 + b * 65536 + c * 256 + d

abbrev pub to_bits : Ipv4Addr → ℕ
to_bits ip = dotted ip.a ip.b ip.c ip.d

pub record IsIpv4 (ip : Ipv4Addr) : Type 0 where
  pub a : ip.a < 256
  pub b : ip.b < 256
  pub c : ip.c < 256
  pub d : ip.d < 256

-- The blocks that the guard refuses, with the documents that set them aside.
abbrev pub special_v4 : List Block
special_v4 =
    record { base = dotted 0 0 0 0; prefix = 8 }
    ∷ record { base = dotted 10 0 0 0; prefix = 8 }
    ∷ record { base = dotted 100 64 0 0; prefix = 10 }
    ∷ record { base = dotted 127 0 0 0; prefix = 8 }
    ∷ record { base = dotted 169 254 0 0; prefix = 16 }
    ∷ record { base = dotted 172 16 0 0; prefix = 12 }
    ∷ record { base = dotted 192 0 2 0; prefix = 24 }
    ∷ record { base = dotted 192 168 0 0; prefix = 16 }
    ∷ record { base = dotted 198 51 100 0; prefix = 24 }
    ∷ record { base = dotted 203 0 113 0; prefix = 24 }
    ∷ record { base = dotted 224 0 0 0; prefix = 4 }
    ∷ record { base = dotted 255 255 255 255; prefix = 32 }
    ∷ []

module _ (ip : Ipv4Addr) (w : IsIpv4 ip) where
  abbrev inside : ℕ → ℕ → Bool
  inside base prefix = in_block 32 (to_bits ip) (record { base = base; prefix = prefix })

  in_this_network : inside (dotted 0 0 0 0) 8 ≡ nat_eq ip.a 0
  in_this_network = ground (arith, w.a, w.b, w.c, w.d)

  in_10 : inside (dotted 10 0 0 0) 8 ≡ nat_eq ip.a 10
  in_10 = ground (arith, w.a, w.b, w.c, w.d)

  in_carrier : inside (dotted 100 64 0 0) 10 ≡ (nat_eq ip.a 100 && nat_eq (clear_low 6 ip.b) 64)
  in_carrier = ground (arith, w.a, w.b, w.c, w.d)

  in_172 : inside (dotted 172 16 0 0) 12 ≡ (nat_eq ip.a 172 && leb 16 ip.b && leb ip.b 31)
  in_172 = ground (arith, w.a, w.b, w.c, w.d)

  in_192_0_2 : inside (dotted 192 0 2 0) 24 ≡ (nat_eq ip.a 192 && nat_eq ip.b 0 && nat_eq ip.c 2)
  in_192_0_2 = ground (arith, w.a, w.b, w.c, w.d)

  in_multicast : inside (dotted 224 0 0 0) 4 ≡ (leb 224 ip.a && leb ip.a 239)
  in_multicast = ground (arith, w.a, w.b, w.c, w.d)

  in_broadcast :
      inside (dotted 255 255 255 255) 32
      ≡ (nat_eq ip.a 255 && nat_eq ip.b 255 && nat_eq ip.c 255 && nat_eq ip.d 255)
  in_broadcast = ground (arith, w.a, w.b, w.c, w.d)

  in_loopback : inside (dotted 127 0 0 0) 8 ≡ nat_eq ip.a 127
  in_loopback = ground (arith, w.a, w.b, w.c, w.d)

  in_link_local : inside (dotted 169 254 0 0) 16 ≡ (nat_eq ip.a 169 && nat_eq ip.b 254)
  in_link_local = ground (arith, w.a, w.b, w.c, w.d)

  in_192_168 : inside (dotted 192 168 0 0) 16 ≡ (nat_eq ip.a 192 && nat_eq ip.b 168)
  in_192_168 = ground (arith, w.a, w.b, w.c, w.d)

  in_198_51_100 :
      inside (dotted 198 51 100 0) 24 ≡ (nat_eq ip.a 198 && nat_eq ip.b 51 && nat_eq ip.c 100)
  in_198_51_100 = ground (arith, w.a, w.b, w.c, w.d)

  in_203_0_113 :
      inside (dotted 203 0 113 0) 24 ≡ (nat_eq ip.a 203 && nat_eq ip.b 0 && nat_eq ip.c 113)
  in_203_0_113 = ground (arith, w.a, w.b, w.c, w.d)

-- The tests of the guard in its order, and in the order of the blocks.
sorted_tests :
    (this ten carrier loop link b172 doc b192 doc' doc'' multi broad z z' z'' : Bool)
    → (if (ten || b172 || b192)
          || loop
          || link
          || multi
          || broad
          || (doc || doc' || doc'')
          || (this && z && z' && z'')
        then false
        else if this
        then false
        else if carrier
        then false
        else true)
      ≡ not (
          this
          || (ten
              || (carrier
                  || (loop
                      || (link
                          || (b172
                              || (doc
                                  || (b192
                                      || (doc' || (doc'' || (multi || (broad || false))))))))))))
sorted_tests this ten carrier loop link b172 doc b192 doc' doc'' multi broad z z' z'' = ground arith

-- An address of version 4 passes the guard exactly if it lies in none of the special blocks.
pub is_globally_routable_v4-special :
    (ip : Ipv4Addr)
    → IsIpv4 ip
    → is_globally_routable_v4 ip ≡ not (any (in_block 32 (to_bits ip)) special_v4)
unfolding is_globally_routable_v4
is_globally_routable_v4-special ip w = rw (in_this_network ip w) (
    rw (in_10 ip w) (
      rw (in_carrier ip w) (
        rw (in_loopback ip w) (
          rw (in_link_local ip w) (
            rw (in_172 ip w) (
              rw (in_192_0_2 ip w) (
                rw (in_192_168 ip w) (
                  rw (in_198_51_100 ip w) (
                    rw (in_203_0_113 ip w) (
                      rw (in_multicast ip w) (
                        rw (in_broadcast ip w) (
                          sorted_tests (nat_eq ip.a 0) (nat_eq ip.a 10)
                            (nat_eq ip.a 100 && nat_eq (clear_low 6 ip.b) 64) (nat_eq ip.a 127)
                            (nat_eq ip.a 169 && nat_eq ip.b 254)
                            (nat_eq ip.a 172 && leb 16 ip.b && leb ip.b 31)
                            (nat_eq ip.a 192 && nat_eq ip.b 0 && nat_eq ip.c 2)
                            (nat_eq ip.a 192 && nat_eq ip.b 168)
                            (nat_eq ip.a 198 && nat_eq ip.b 51 && nat_eq ip.c 100)
                            (nat_eq ip.a 203 && nat_eq ip.b 0 && nat_eq ip.c 113)
                            (leb 224 ip.a && leb ip.a 239)
                            (nat_eq ip.a 255
                              && nat_eq ip.b 255
                              && nat_eq ip.c 255
                              && nat_eq ip.d 255)
                            (nat_eq ip.b 0) (nat_eq ip.c 0) (nat_eq ip.d 0)))))))))))))

-- The blocks of version 6 that the first 16 bits tell: fc00::/7, fe80::/10, ff00::/8.
abbrev pub special_v6 : List Block
special_v6 =
    record { base = 64512; prefix = 7 }
    ∷ record { base = 65152; prefix = 10 }
    ∷ record { base = 65280; prefix = 8 }
    ∷ []

in_v6 :
    (x : ℕ)
    → x < 65536
    → any (in_block 16 x) special_v6 ≡ (
        nat_eq (clear_low 9 x) 64512
        || (nat_eq (clear_low 6 x) 65152 || nat_eq (clear_low 8 x) 65280))
in_v6 x w = ground (arith, w)

sorted_tests_v6 :
    (loop zeros multi local link : Bool)
    → (if loop || zeros || multi
        then false
        else if local
        then false
        else if link
        then false
        else true)
      ≡ not (loop || zeros || (local || (link || multi)))
sorted_tests_v6 loop zeros multi local link = ground arith

-- An address of version 6 whose first segment has 16 bits passes the guard exactly if it is neither
-- the loopback nor the unspecified address, and lies in none of the special blocks.
pub is_globally_routable_v6-special :
    (ip : Ipv6Addr)
    → ip.s0 < 65536
    → is_globally_routable_v6 ip
      ≡ not (is_loopback_v6 ip || is_unspecified_v6 ip || any (in_block 16 ip.s0) special_v6)
unfolding is_globally_routable_v6
is_globally_routable_v6-special ip w = rw (in_v6 ip.s0 w) (
    sorted_tests_v6 (is_loopback_v6 ip) (is_unspecified_v6 ip) (is_multicast_v6 ip)
      (nat_eq (clear_low 9 ip.s0) 64512) (nat_eq (clear_low 6 ip.s0) 65152))
