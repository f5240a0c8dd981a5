-- ===== src/Accounts/Siwe.antt =====
-- The message that a wallet signs, and the test of its signature: services/siwe.go. Texts are strings
-- of characters here, since the message is made of them.
use Prim.Native.Char.{char}
use Prim.Native.String.{◌++◌ as ◌+++◌, len}
use tachigo.Base.{
  ℕ, zero, suc, ◌-◌, String, Bool, false, Option, none, some, List, [], ◌∷◌, ◌==◌, leb, not,
  if◌then◌else◌, length,
}
use tachigo.Models.{Time, Name}
use tachigo.Effect.{Outside}

abbrev line_break : String
line_break = String.◌∷◌ (char 10 tt) String.[]

unfoldable pub siwe_message : String → String → String → String
siwe_message address nonce issued_at =
    "tachigo.io wants you to sign in with your Ethereum account:"
    +++ (line_break
        +++ (address
            +++ (line_break
                +++ (line_break
                    +++ ("Sign in to Tachigo"
                        +++ (line_break
                            +++ (line_break
                                +++ ("Nonce: "
                                    +++ (nonce
                                        +++ (line_break +++ ("Issued At: " +++ issued_at)))))))))))

-- What `personal_sign` puts before a message, its length in bytes among it.
unfoldable pub personal_message : (ℕ → String) → String → String
personal_message decimal message =
    String.◌∷◌ (char 25 tt) "Ethereum Signed Message:"
    +++ (line_break +++ (decimal (len message) +++ message))

-- 27 is taken from the byte at an index, unless it is smaller.
abbrev pub without_offset : ℕ → List ℕ → List ℕ
without_offset n [] = []
without_offset zero (b ∷ bs) = (if leb 27 b then b - 27 else b) ∷ bs
without_offset (suc n) (b ∷ bs) = b ∷ without_offset n bs

abbrev pub is_signer : Outside → Name → Option Name → Bool
is_signer outside expected none = false
is_signer outside expected (some recovered) =
    outside.strings.to_lower recovered == outside.strings.to_lower expected

abbrev pub has_signed : Outside → String → Name → Option (List ℕ) → Bool
has_signed outside message expected none = false
has_signed outside message expected (some signature) =
    if not (length signature == 65)
    then false
    else is_signer outside expected (
        outside.identity.recover_signer
          (outside.identity.keccak256 (personal_message outside.strings.decimal message))
          (without_offset 64 signature))

-- The hexadecimal signature is decoded without its prefix `0x`.
unfoldable pub verify_eth_signature : Outside → String → Name → Name → Bool
verify_eth_signature outside message signature expected =
    has_signed outside message expected (outside.strings.decode_hex signature)

-- The message for a nonce that was made at a time, which it gives in UTC.
abbrev pub message_at : Outside → Name → Name → Time → String
message_at outside address nonce at =
    siwe_message (outside.strings.text address) (outside.strings.text nonce)
      (outside.strings.format_time at)
