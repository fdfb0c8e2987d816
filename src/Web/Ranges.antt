-- ===== src/Web/Ranges.antt =====
-- The IPv4 addresses that crates/simon-core/src/web.rs calls private, as blocks of addresses.
use simon.Prelude.{
  ℕ, ◌+◌, ◌*◌, ◌/◌, ◌^◌, ◌-◌, ◌<◌, ◌≡◌, refl, Bool, true, false, ◌||◌, ◌&&◌, List, [], ◌∷◌, ◌==◌,
  leb, any, arith, false,
}
use simon.Web.{V4, prywatny_v4}

-- An address as a number of 32 bits.
unfoldable pub liczba : V4 → ℕ
liczba x = x.a * 16777216 + x.b * 65536 + x.c * 256 + x.d

-- The address is one of the 2 ^ k addresses of a block, by the number of the block among those of its size.
abbrev pub w_bloku : ℕ → ℕ × ℕ → Bool
w_bloku n (k, blok) = n / 2 ^ k == blok

-- The blocks, in the order of the source's tests: 10/8, 172.16/12, 192.168/16, 127/8, 169.254/16, 0.0.0.0,
-- 255.255.255.255, 224/4, 192.0.2/24, 198.51.100/24, 203.0.113/24 and 100.64/10.
abbrev pub bloki : List (ℕ × ℕ)
bloki =
    (24, 10)
    ∷ (20, 172 * 16 + 1)
    ∷ (16, 192 * 256 + 168)
    ∷ (24, 127)
    ∷ (16, 169 * 256 + 254)
    ∷ (0, 0)
    ∷ (0, 2 ^ 32 - 1)
    ∷ (28, 14)
    ∷ (8, (192 * 256 + 0) * 256 + 2)
    ∷ (8, (198 * 256 + 51) * 256 + 100)
    ∷ (8, (203 * 256 + 0) * 256 + 113)
    ∷ (22, 100 * 4 + 1)
    ∷ []

module _ (a b c d : ℕ) (p : b < 256) (q : c < 256) (r : d < 256) where
  abbrev n : ℕ
  n = a * 16777216 + b * 65536 + c * 256 + d

  w8 : (m : ℕ) → (a == m) ≡ (n / 2 ^ 24 == m)
  w8 m = let e : n / 2 ^ 24 ≡ a = omega arith in rw e refl

  w12 : (a == 172 && (leb 16 b && leb b 31)) ≡ (n / 2 ^ 20 == 172 * 16 + 1)
  w12 = let e : n / 2 ^ 20 ≡ a * 16 + b / 16 = omega arith in rw e (ground arith)

  w16 : (m k : ℕ) → k < 256 → (a == m && b == k) ≡ (n / 2 ^ 16 == m * 256 + k)
  w16 m k h = let e : n / 2 ^ 16 ≡ a * 256 + b = omega arith in rw e (ground arith)

  w24 :
      (m k l : ℕ)
      → k < 256
      → l < 256
      → (a == m && (b == k && c == l)) ≡ (n / 2 ^ 8 == (m * 256 + k) * 256 + l)
  w24 m k l h i = let e : n / 2 ^ 8 ≡ (a * 256 + b) * 256 + c = omega arith in rw e (ground arith)

  w4 : (leb 224 a && leb a 239) ≡ (n / 2 ^ 28 == 14)
  w4 = let e : n / 2 ^ 28 ≡ a / 16 = omega arith in rw e (ground arith)

  w10 : (a == 100 && b / 64 * 64 == 64) ≡ (n / 2 ^ 22 == 100 * 4 + 1)
  w10 = let e : n / 2 ^ 22 ≡ a * 4 + b / 64 = omega arith in rw e (ground arith)

  w0 : (a == 0 && (b == 0 && (c == 0 && d == 0))) ≡ (n / 2 ^ 0 == 0)
  w0 = ground arith

  w32 : (a == 255 && (b == 255 && (c == 255 && d == 255))) ≡ (n / 2 ^ 0 == 2 ^ 32 - 1)
  w32 = ground arith

szereg :
    (p0 p1 p2 p3 p4 p5 p6 p7 p8 p9 p10 p11 : Bool)
    → ((p0 || (p1 || p2)) || (p3 || (p4 || (p5 || (p6 || (p7 || ((p8 || (p9 || p10)) || p11)))))))
      ≡ (p0
          || (p1
              || (p2
                  || (p3
                      || (p4 || (p5 || (p6 || (p7 || (p8 || (p9 || (p10 || (p11 || false))))))))))))
szereg true p1 p2 p3 p4 p5 p6 p7 p8 p9 p10 p11 = refl
szereg false true p2 p3 p4 p5 p6 p7 p8 p9 p10 p11 = refl
szereg false false true p3 p4 p5 p6 p7 p8 p9 p10 p11 = refl
szereg false false false p3 p4 p5 p6 p7 p8 p9 p10 p11 = ground arith

-- An IPv4 address is private for the program exactly if it lies in one of these blocks, whatever its four
-- octets are.
pub prywatny_v4-bloki :
    (x : V4) → x.b < 256 → x.c < 256 → x.d < 256 → prywatny_v4 x ≡ any (w_bloku (liczba x)) bloki
unfolding prywatny_v4 liczba
prywatny_v4-bloki x p q r =
    rw
      (
        w8 x.a x.b x.c x.d p q r 10,
        w12 x.a x.b x.c x.d p q r,
        w16 x.a x.b x.c x.d p q r 192 168 (omega arith),
        w8 x.a x.b x.c x.d p q r 127,
        w16 x.a x.b x.c x.d p q r 169 254 (omega arith),
        w0 x.a x.b x.c x.d p q r,
        w32 x.a x.b x.c x.d p q r,
        w4 x.a x.b x.c x.d p q r,
        w24 x.a x.b x.c x.d p q r 192 0 2 (omega arith) (omega arith),
        w24 x.a x.b x.c x.d p q r 198 51 100 (omega arith) (omega arith),
        w24 x.a x.b x.c x.d p q r 203 0 113 (omega arith) (omega arith),
        w10 x.a x.b x.c x.d p q r,
      )
      (szereg (w_bloku (liczba x) (24, 10)) (w_bloku (liczba x) (20, 172 * 16 + 1))
        (w_bloku (liczba x) (16, 192 * 256 + 168)) (w_bloku (liczba x) (24, 127))
        (w_bloku (liczba x) (16, 169 * 256 + 254)) (w_bloku (liczba x) (0, 0))
        (w_bloku (liczba x) (0, 2 ^ 32 - 1)) (w_bloku (liczba x) (28, 14))
        (w_bloku (liczba x) (8, (192 * 256 + 0) * 256 + 2))
        (w_bloku (liczba x) (8, (198 * 256 + 51) * 256 + 100))
        (w_bloku (liczba x) (8, (203 * 256 + 0) * 256 + 113))
        (w_bloku (liczba x) (22, 100 * 4 + 1)))
