-- ===== src/Http/Ota/Verify.antt =====
-- http/url_ota.c: the block of `http_url_ota_push` that verifies the signature.
use esp8266_toolbox.Base.{
  ℕ, zero, suc, ◌-◌, Bool, true, false, Option, none, some, List, [], ◌∷◌, ◌++◌, take, replicate,
  ◌==◌, ltb, if◌then◌else◌,
}
use esp8266_toolbox.Base.Memory.{text_of}
use esp8266_toolbox.Crypto.Bigint.{Bigint, bigint_fromhex, error, ok, reversed, used}
use esp8266_toolbox.Crypto.Bigint.Ops.{rsa_pubkey_decrypt}
use esp8266_toolbox.Http.Process.{HttpClient}
use esp8266_toolbox.Param.{FlashMap}

-- What the device is: the flash map, the address of the running application and the public key.
pub record Device : Type 0 where
  pub flash_map : FlashMap
  pub userbin_addr : ℕ
  pub pubkey_mod : Bigint
  pub pubkey_exp : Bigint

-- `os_strncmp(a, b, n) == 0`
unfoldable pub same_strings : ℕ → List ℕ → List ℕ → Bool
same_strings zero a b = true
same_strings (suc n) (x ∷ a) (y ∷ b) =
    if x == y then (if x == 0 then true else same_strings n a b) else false
same_strings (suc n) _ _ = false

-- `index(text, '?') + 1` of a text with a NUL, up to the NUL.
unfoldable pub after_mark : List ℕ → Option (List ℕ)
after_mark [] = none
after_mark (c ∷ memory) =
    if c == 0 then none else if c == b'?' then some (text_of memory) else after_mark memory

-- `hash3`: the bytes of the number, the highest first, behind zeros. With more than 32 of them the
-- loop writes past the end of `hash3`, which is none.
unfoldable pub hash3_of : Bigint → Option (List ℕ)
hash3_of clear =
    if ltb 32 (used clear)
    then none
    else some (replicate (32 - used clear) 0 ++ reversed (take (used clear) clear.octets) [])

-- What the signature says of the hash.
pub data Judgement : Type 0 where
  genuine forged overflow : Judgement

unfoldable pub check_hash : List ℕ → Bigint → Judgement
check_hash hash1 clear = elim (hash3_of clear) [
  | none ↦ overflow
  | some hash3 ↦ if same_strings 32 hash1 hash3 then genuine else forged
]

-- What is done with the text of the signature.
unfoldable pub check_text : Device → List ℕ → List ℕ → Judgement
check_text d start hash1 = elim (bigint_fromhex start) [
  | error _ ↦ forged
  | ok cipher ↦ elim (rsa_pubkey_decrypt d.pubkey_mod d.pubkey_exp cipher) [
    | error _ ↦ forged
    | ok clear ↦ check_hash hash1 clear
  ]
]

-- The block that verifies the signature. The text of `url` runs on into `host` and `buf` where it
-- has no NUL, and what lies behind is not part of the model.
unfoldable pub check_signature : Device → HttpClient → List ℕ → Judgement
check_signature d c hash1 = elim (after_mark (c.url ++ (c.host ++ c.buf))) [
  | none ↦ forged
  | some start ↦ check_text d start hash1
]
