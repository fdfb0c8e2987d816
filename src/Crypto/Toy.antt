-- ===== src/Crypto/Toy.antt =====
-- Libraries that meet the laws, with which a test can compute: hex is the real one; the hash is a
-- polynomial checksum; a signature is the key followed by the checksum of the message.
use Prim.Native.Char.{Char, code}
use simon.Prelude.{
  ℕ, zero, suc, ◌+◌, ◌-◌, ◌*◌, ◌/◌, ◌%◌, ◌^◌, ◌<◌, ◌≡◌, refl, ap, Bool, true, ◌&&◌, [], ◌∷◌, ◌++◌,
  String, Option, none, some, Result, ok, err, ◌>>=◌, length, length-append, arith, if◌then◌else◌,
  leb, ◌==◌, ok_or,
}
use simon.Prelude.Text.{str_append}
use simon.Kodowanie.{
  Bytes, IsBytes, Biblioteki, Prawa, Dokument, Elementy, Pola, null, bool, number, text, seq,
  object, struct, nil, cons, koniec, pole, float,
}
use simon.Crypto.{bytes_eq}
use simon.Crypto.Laws.{bytes_eq_iff}

unfoldable pub cyfra : ℕ → Char
cyfra n =
    if n == 0
    then "0"
    else if n == 1
    then "1"
    else if n == 2
    then "2"
    else if n == 3
    then "3"
    else if n == 4
    then "4"
    else if n == 5
    then "5"
    else if n == 6
    then "6"
    else if n == 7
    then "7"
    else if n == 8
    then "8"
    else if n == 9
    then "9"
    else if n == 10
    then "a"
    else if n == 11
    then "b"
    else if n == 12
    then "c"
    else if n == 13
    then "d"
    else if n == 14
    then "e"
    else "f"

unfoldable pub wartosc : ℕ → Option ℕ
wartosc c =
    if leb 48 c && leb c 57
    then some (c - 48)
    else if leb 97 c && leb c 102
    then some (c - 87)
    else none

wszystkie_ponizej : ℕ → (ℕ → Bool) → Bool
wszystkie_ponizej zero p = true
wszystkie_ponizej (suc n) p = p n && wszystkie_ponizej n p

wszystkie_ponizej_sound :
    (n : ℕ) (p : ℕ → Bool) (x : ℕ) → wszystkie_ponizej n p ≡ true → x < n → p x ≡ true
unfolding wszystkie_ponizej
wszystkie_ponizej_sound zero p x h lt = absurd (omega arith)
wszystkie_ponizej_sound (suc n) p x h lt = ground (arith, wszystkie_ponizej_sound n p x)

abbrev cyfra_odczytana : ℕ → Bool
cyfra_odczytana n = elim (wartosc (code (cyfra n))) [ none ↦ Bool.false | some m ↦ m == n ]

cyfry_tablica : wszystkie_ponizej 16 cyfra_odczytana ≡ true
unfolding wszystkie_ponizej wartosc cyfra
cyfry_tablica = refl

wartosc-cyfra : (n : ℕ) → n < 16 → wartosc (code (cyfra n)) ≡ some n
wartosc-cyfra n h = ground (arith, wszystkie_ponizej_sound 16 cyfra_odczytana n cyfry_tablica h)

unfoldable pub zakoduj : Bytes → String
unfolding cyfra
zakoduj [] = ""
zakoduj (x ∷ xs) = String.◌∷◌ (cyfra (x / 16)) (String.◌∷◌ (cyfra (x % 16)) (zakoduj xs))

unfoldable pub odkoduj : String → Result String Bytes
unfolding wartosc
odkoduj String.[] = ok []
odkoduj (String.◌∷◌ c String.[]) = err "Odd number of digits"
odkoduj (String.◌∷◌ c (String.◌∷◌ d s)) = do
  hi ← ok_or (wartosc (code c)) "Invalid character"
  lo ← ok_or (wartosc (code d)) "Invalid character"
  rest ← odkoduj s
  ok ((16 * hi + lo) ∷ rest)

odkoduj-zakoduj : (x : Bytes) → IsBytes x → odkoduj (zakoduj x) ≡ ok x
unfolding odkoduj zakoduj
odkoduj-zakoduj [] h = refl
odkoduj-zakoduj (x ∷ xs) h =
    let e : 16 * (x / 16) + x % 16 ≡ x = omega arith in
    rw (
      wartosc-cyfra (x / 16) (omega arith),
      wartosc-cyfra (x % 16) (omega arith),
      odkoduj-zakoduj xs h.1,
      e,
    )

-- The `n` lowest digits of `k` to the base 256, lowest first.
unfoldable bajty_z : ℕ → ℕ → Bytes
bajty_z zero k = []
bajty_z (suc n) k = (k % 256) ∷ bajty_z n (k / 256)

bajty_z-IsBytes : (n k : ℕ) → IsBytes (bajty_z n k)
unfolding bajty_z
bajty_z-IsBytes zero k = tt
bajty_z-IsBytes (suc n) k = (omega arith, bajty_z-IsBytes n (k / 256))

length-bajty_z : (n k : ℕ) → length (bajty_z n k) ≡ n
unfolding bajty_z
length-bajty_z zero k = refl
length-bajty_z (suc n) k = ap suc (length-bajty_z n (k / 256))

unfoldable suma_kontrolna : ℕ → Bytes → ℕ
suma_kontrolna h [] = h
suma_kontrolna h (x ∷ xs) = suma_kontrolna ((h * 257 + x + 1) % 2 ^ 127) xs

unfoldable pub skrot : Bytes → Bytes
unfolding bajty_z suma_kontrolna
skrot x = bajty_z 32 (suma_kontrolna 0 x)

-- A printer that marks each constructor; it is not JSON.
unfoldable mutual
  pub drukuj : Dokument → String
  drukuj null = "n"
  drukuj (bool Bool.true) = "t"
  drukuj (bool Bool.false) = "f"
  drukuj (number z) = "#"
  drukuj (float s) = str_append s ";"
  drukuj (text s) = str_append s ";"
  drukuj (seq es) = str_append "[" (drukuj_elementy es)
  drukuj (object ps) = str_append "{" (drukuj_pola ps)
  drukuj (struct ps) = str_append "(" (drukuj_pola ps)

  drukuj_elementy : Elementy → String
  drukuj_elementy nil = "]"
  drukuj_elementy (cons d es) = str_append (drukuj d) (drukuj_elementy es)

  drukuj_pola : Pola → String
  drukuj_pola koniec = "}"
  drukuj_pola (pole k d ps) = str_append k (str_append (drukuj d) (drukuj_pola ps))

unfoldable pub podpisz : Bytes → Bytes → Bytes
unfolding skrot
podpisz key m = key ++ skrot m

abbrev pub biblioteki : Biblioteki
biblioteki = record {
  to_string = λ d. ok (drukuj d);
  sha256 = skrot;
  hex_encode = zakoduj;
  hex_decode = odkoduj;
  verifying_key = λ k. ok tt;
  ed_verify = λ key m sig. bytes_eq sig (podpisz key m);
  ed_sign = λ seed m. podpisz (skrot seed) m;
  ed_public = skrot;
}

skrot-IsBytes : (x : Bytes) → IsBytes (skrot x)
unfolding skrot
skrot-IsBytes x = bajty_z-IsBytes 32 (suma_kontrolna 0 x)

length-skrot : (x : Bytes) → length (skrot x) ≡ 32
unfolding skrot
length-skrot x = length-bajty_z 32 (suma_kontrolna 0 x)

All-append : (xs ys : Bytes) → IsBytes xs → IsBytes ys → IsBytes (xs ++ ys)
All-append [] ys p q = q
All-append (x ∷ xs) ys p q = (p.0, All-append xs ys p.1 q)

podpisz-IsBytes : (seed m : Bytes) → IsBytes (podpisz (skrot seed) m)
unfolding podpisz
podpisz-IsBytes seed m = All-append (skrot seed) (skrot m) (skrot-IsBytes seed) (skrot-IsBytes m)

length-podpisz : (seed m : Bytes) → length (podpisz (skrot seed) m) ≡ 64
unfolding podpisz
length-podpisz seed m =
    omega (arith, length-append (skrot seed) (skrot m), length-skrot seed, length-skrot m)

pub prawa : Prawa biblioteki
prawa = record {
  hex_decode-encode = odkoduj-zakoduj;
  to_string_total = λ d. (drukuj d, refl);
  public_bytes = skrot-IsBytes;
  public_length = length-skrot;
  public_valid = λ seed. refl;
  sign_bytes = podpisz-IsBytes;
  sign_length = length-podpisz;
  sign_verify = λ seed m. let s = podpisz (skrot seed) m in (bytes_eq_iff s s).1 refl;
}
