-- ===== src/Tests/Ciphers.antt =====
-- A cipher that hides nothing and a base of one digit, which invert themselves, and the round trip of
-- a token under them.
use Prim.Native.Nat.{Ordering, compare}
use Prim.Native.Char.{Char, char, code, nul, IsLt}
use tachigo.Base.{
  ℕ, zero, suc, ◌+◌, ◌≡◌, refl, ap, ◌∙◌, ◌⊎◌, ◌==◌, arith, String, true, some, [], ◌∷◌,
  if◌then◌else◌,
}
use tachigo.Models.{ok}
use tachigo.TokenCipher.{
  Bytes, Primitives, encrypted_oauth_token_prefix, is_empty, strip_prefix, new_oauth_token_cipher,
  encrypt, decrypt,
}
use tachigo.TokenCipher.RoundTrip.{Inverts, decrypt-encrypt}

-- What a character's number has to be, on the three comparisons that say it.
abbrev Both : Ordering → Ordering → Type 0
Both Ordering.lt o = IsLt o
Both Ordering.eq _ = ⊥
Both Ordering.gt _ = ⊥

abbrev Scalar : Ordering → Ordering → Ordering → Type 0
Scalar Ordering.lt _ _ = Unit
Scalar Ordering.eq o p = Both o p
Scalar Ordering.gt o p = Both o p

abbrev if_lt : (o : Ordering) → (IsLt o → Char) → Char
if_lt Ordering.lt f = f tt
if_lt Ordering.eq f = nul
if_lt Ordering.gt f = nul

abbrev if_both : (o p : Ordering) → (Both o p → Char) → Char
if_both Ordering.lt p f = if_lt p f
if_both Ordering.eq p f = nul
if_both Ordering.gt p f = nul

abbrev if_scalar : (o p q : Ordering) → (Scalar o p q → Char) → Char
if_scalar Ordering.lt p q f = f tt
if_scalar Ordering.eq p q f = if_both p q f
if_scalar Ordering.gt p q f = if_both p q f

if_lt_lem : (o : Ordering) (f : IsLt o → Char) (h : IsLt o) → if_lt o f ≡ f h
if_lt_lem Ordering.lt f h = refl
if_lt_lem Ordering.eq f h = elim h [ ]
if_lt_lem Ordering.gt f h = elim h [ ]

if_both_lem : (o p : Ordering) (f : Both o p → Char) (h : Both o p) → if_both o p f ≡ f h
if_both_lem Ordering.lt p f h = if_lt_lem p f h
if_both_lem Ordering.eq p f h = elim h [ ]
if_both_lem Ordering.gt p f h = elim h [ ]

if_scalar_lem :
    (o p q : Ordering) (f : Scalar o p q → Char) (h : Scalar o p q) → if_scalar o p q f ≡ f h
if_scalar_lem Ordering.lt p q f h = refl
if_scalar_lem Ordering.eq p q f h = if_both_lem p q f h
if_scalar_lem Ordering.gt p q f h = if_both_lem p q f h

abbrev char_of : ℕ → Char
char_of n = if_scalar (compare n 55296) (compare 57343 n) (compare n 1114112) (char n)

char_of-code : (c : Char) → char_of (code c) ≡ c
char_of-code (char n h) =
    if_scalar_lem (compare n 55296) (compare 57343 n) (compare n 1114112) (char n) h

abbrev codes : String → Bytes
codes String.[] = []
codes (String.◌∷◌ c s) = code c ∷ codes s

abbrev text : Bytes → String
text [] = String.[]
text (n ∷ b) = String.◌∷◌ (char_of n) (text b)

text-codes : (s : String) → text (codes s) ≡ s
text-codes String.[] = refl
text-codes (String.◌∷◌ c s) =
    ap (λ d. String.◌∷◌ d (text (codes s))) (char_of-code c) ∙ ap (String.◌∷◌ c) (text-codes s)

-- A number is that many ones, and then a zero.
abbrev ones : ℕ → String → String
ones zero s = String.◌∷◌ (char 48 tt) s
ones (suc n) s = String.◌∷◌ (char 49 tt) (ones n s)

abbrev digits : Bytes → String
digits [] = String.[]
digits (n ∷ b) = ones n (digits b)

abbrev numbers : ℕ → String → Bytes
numbers n String.[] = []
numbers n (String.◌∷◌ c s) = if code c == 48 then n ∷ numbers 0 s else numbers (suc n) s

numbers-ones : (m n : ℕ) (s : String) → numbers m (ones n s) ≡ (n + m) ∷ numbers 0 s
numbers-ones m zero s = ap (λ k. k ∷ numbers 0 s) (omega arith)
numbers-ones m (suc n) s = numbers-ones (suc m) n s ∙ ap (λ k. k ∷ numbers 0 s) (omega arith)

numbers-digits : (b : Bytes) → numbers 0 (digits b) ≡ b
numbers-digits [] = refl
numbers-digits (n ∷ b) =
    numbers-ones 0 n (digits b)
    ∙ ap (λ k. k ∷ numbers 0 (digits b)) (omega arith)
    ∙ ap (λ r. n ∷ r) (numbers-digits b)

abbrev plain : Primitives
plain = record {
  sum256 = codes;
  nonce_size = 2;
  seal = λ key nonce plaintext. codes plaintext;
  unseal = λ key nonce sealed. ok (text sealed);
  encode = digits;
  decode = λ s. ok (numbers 0 s);
}

plain-Inverts : Inverts plain
plain-Inverts = record {
  unseal_seal = λ key nonce plaintext. ap ok (text-codes plaintext);
  decode_encode = λ b. ap ok (numbers-digits b);
}

decrypt-encrypt_example :
    (stored : String) × (encrypt plain
        (new_oauth_token_cipher plain "key")
        (ok (7 ∷ 0 ∷ []))
        "token"
      ≡ ok stored)
    × (decrypt plain (new_oauth_token_cipher plain "key") stored ≡ ok "token")
    × ((is_empty "token" ≡ true)
        ⊎ ((rest : String) × (strip_prefix encrypted_oauth_token_prefix stored ≡ some rest)))
decrypt-encrypt_example = decrypt-encrypt plain plain-Inverts "key" "token" (7 ∷ 0 ∷ []) refl refl
