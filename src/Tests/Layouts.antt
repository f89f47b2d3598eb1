-- ===== src/Tests/Layouts.antt =====
-- The structure `rt_msghdr` as macOS has it: 92 bytes, little-endian.
use wg_kotlin.Base.{
  ℕ, zero, suc, ◌+◌, ◌*◌, ◌/◌, ◌%◌, ◌^◌, ◌<◌, ◌≡◌, refl, List, [], ◌∷◌, ◌++◌, arith, drop,
  replicate,
}
use wg_kotlin.RoutingMessage.{Header, InRange, Layout, IsLayout}

abbrev le : ℕ → ℕ → List ℕ
le zero x = []
le (suc n) x = x % 256 ∷ le n (x / 256)

abbrev of_le : ℕ → List ℕ → ℕ
of_le zero bytes = 0
of_le (suc n) [] = 0
of_le (suc n) (b ∷ bytes) = b % 256 + 256 * of_le n bytes

-- Two bytes stand empty after the index, then the use count after the errno, and a lock before the
-- metrics.
abbrev pub rt_msghdr : Layout (Unit {0})
rt_msghdr = record {
  size = 92;
  zeroed = tt;
  read = λ bytes. record {
    msglen = of_le 2 bytes;
    version = of_le 1 (drop 2 bytes);
    kind = of_le 1 (drop 3 bytes);
    index = of_le 2 (drop 4 bytes);
    flags = of_le 4 (drop 8 bytes);
    addrs = of_le 4 (drop 12 bytes);
    pid = of_le 4 (drop 16 bytes);
    seq = of_le 4 (drop 20 bytes);
    errno = of_le 4 (drop 24 bytes);
    inits = of_le 4 (drop 32 bytes);
    mtu = of_le 4 (drop 40 bytes);
    hopcount = of_le 4 (drop 44 bytes);
    others = tt;
  };
  write = λ h.
      le 2 h.msglen
      ++ le 1 h.version
      ++ le 1 h.kind
      ++ le 2 h.index
      ++ replicate 2 0
      ++ le 4 h.flags
      ++ le 4 h.addrs
      ++ le 4 h.pid
      ++ le 4 h.seq
      ++ le 4 h.errno
      ++ replicate 4 0
      ++ le 4 h.inits
      ++ replicate 4 0
      ++ le 4 h.mtu
      ++ le 4 h.hopcount
      ++ replicate 44 0;
}

byte : (x : ℕ) (rest : List ℕ) → x < 2 ^ 8 → of_le 1 (le 1 x ++ rest) ≡ x
byte x rest h = omega (arith, h)

short : (x : ℕ) (rest : List ℕ) → x < 2 ^ 16 → of_le 2 (le 2 x ++ rest) ≡ x
short x rest h = omega (arith, h)

word : (x : ℕ) (rest : List ℕ) → x < 2 ^ 32 → of_le 4 (le 4 x ++ rest) ≡ x
word x rest h = omega (arith, h)

power : (n : ℕ) → 256 ^ suc n ≡ 256 * 256 ^ n
power n = omega arith

of_le-bound : (n : ℕ) (bytes : List ℕ) → of_le n bytes < 256 ^ n
of_le-bound zero bytes = omega arith
of_le-bound (suc n) [] = omega (arith, of_le-bound n [], power n)
of_le-bound (suc n) (b ∷ bytes) = omega (arith, of_le-bound n bytes, power n)

pub rt_msghdr-IsLayout : IsLayout rt_msghdr
rt_msghdr-IsLayout = record {
  size_min = omega arith;
  sized = λ h. refl;
  reads_back = λ h bytes r. λ i. record {
    msglen = short h.msglen [] r.msglen i;
    version = byte h.version [] r.version i;
    kind = byte h.kind [] r.kind i;
    index = short h.index [] r.index i;
    flags = word h.flags [] r.flags i;
    addrs = word h.addrs [] r.addrs i;
    pid = word h.pid [] r.pid i;
    seq = word h.seq [] r.seq i;
    errno = word h.errno [] r.errno i;
    inits = word h.inits [] r.inits i;
    mtu = word h.mtu [] r.mtu i;
    hopcount = word h.hopcount [] r.hopcount i;
    others = tt;
  };
  prefixed = prefix;
  ranged = λ bytes. record {
    msglen = of_le-bound 2 bytes;
    version = of_le-bound 1 (drop 2 bytes);
    kind = of_le-bound 1 (drop 3 bytes);
    index = of_le-bound 2 (drop 4 bytes);
    flags = of_le-bound 4 (drop 8 bytes);
    addrs = of_le-bound 4 (drop 12 bytes);
    pid = of_le-bound 4 (drop 16 bytes);
    seq = of_le-bound 4 (drop 20 bytes);
    errno = of_le-bound 4 (drop 24 bytes);
    inits = of_le-bound 4 (drop 32 bytes);
    mtu = of_le-bound 4 (drop 40 bytes);
    hopcount = of_le-bound 4 (drop 44 bytes);
  };
}
  where
    prefix :
        (h : Header (Unit {0}))
        → InRange h
        → (bytes : List ℕ) × (rt_msghdr.write h
            ≡ h.msglen % 256 ∷ h.msglen / 256 ∷ h.version ∷ h.kind ∷ bytes)
    prefix h r =
        let a : h.msglen / 256 % 256 ≡ h.msglen / 256 = omega (arith, r.msglen) in
        let b : h.version % 256 ≡ h.version = omega (arith, r.version) in
        let c : h.kind % 256 ≡ h.kind = omega (arith, r.kind) in
        (
          drop 4 (rt_msghdr.write h),
          λ i. h.msglen % 256 ∷ a i ∷ b i ∷ c i ∷ drop 4 (rt_msghdr.write h),
        )
