-- ===== src/Smtp/Challenge.antt =====
-- smtp/smtp.c: `smtp_send_challenge`, which answers the server's challenge with an HMAC-MD5.
pub mod Answer
mod Tests
use esp8266_toolbox.Base.{
  ℕ, zero, suc, ◌+◌, ◌-◌, ◌/◌, ◌%◌, bit_xor, Bool, none, some, List, [], ◌∷◌, ◌++◌, map, length,
  take, drop, replicate, set, ltb, leb, if◌then◌else◌,
}
use esp8266_toolbox.Base.Memory.{overlay}
use esp8266_toolbox.Crypto.Base64.{b64_decode, b64_encode, bad_input, overflow, written}
use esp8266_toolbox.Crypto.Md5.{md5}
use esp8266_toolbox.Smtp.{
  cut_line, consume, fails, find_end, overrun, outbuf_size, ran, Run, send_out, SmtpServer,
  SmtpState, starts_with, state_auth,
}

-- "334 "
abbrev pub code_334 : List ℕ
code_334 = b'3' ∷ b'3' ∷ b'4' ∷ b' ' ∷ []

abbrev pub chal_size : ℕ
chal_size = 128

abbrev pub md5_blocksize : ℕ
md5_blocksize = 64

-- The text in front of the first NUL.
pub text_of : List ℕ → List ℕ
text_of [] = []
text_of (zero ∷ memory) = []
text_of (suc c ∷ memory) = suc c ∷ text_of memory

-- `key`, with what is on the stack before the call of `md5`.
pub hmac_key : List ℕ → List ℕ → List ℕ
hmac_key stack pass =
    if ltb md5_blocksize (length pass)
    then overlay (replicate md5_blocksize 0) 0 (md5 stack pass)
    else overlay (replicate md5_blocksize 0) 0 pass

-- `resp`
pub response : List ℕ → List ℕ → List ℕ → List ℕ
response stack key chal =
    let left : List ℕ = map (λ (b : ℕ). bit_xor b 92) key in
    let right : List ℕ = map (λ (b : ℕ). bit_xor b 54) key in
    md5 stack (left ++ md5 stack (right ++ chal))

pub hex_digit : ℕ → ℕ
hex_digit d = if ltb d 10 then 48 + d else 87 + d

-- "%02x" for each byte.
pub hex_text : List ℕ → List ℕ
hex_text [] = []
hex_text (b ∷ bytes) = hex_digit (b / 16) ∷ hex_digit (b % 16) ∷ hex_text bytes

-- `os_snprintf` of the name and the response into `right`, of 256 bytes, and `b64_encode` of that.
pub answer : Bool → SmtpServer → List ℕ → SmtpState → Run
answer refused server resp s =
    if ltb 256 (length server.user + 33)
    then fails s
    else elim (b64_encode (server.user ++ (b' ' ∷ hex_text resp)) outbuf_size) [
      | bad_input ↦ fails s
      | overflow ↦ fails s
      | written code ↦
          let outbuf = overlay (overlay s.outbuf 0 code) (length code) (13 ∷ 10 ∷ []) in
          cut_line refused (length code + 2)
            (send_out refused (length code + 2) (record s { outbuf = outbuf }))
    ]

-- The block with the keys, for the text of the challenge.
pub respond : Bool → List ℕ → SmtpServer → List ℕ → SmtpState → Run
respond refused stack server chal s =
    if ltb 256 (md5_blocksize + length chal)
    then fails s
    else answer refused server (response stack (hmac_key stack server.pass) chal) s

-- `chal[len2] = 0` and what follows. A challenge of 128 bytes puts the NUL past the array.
pub challenged : Bool → List ℕ → SmtpServer → ℕ → List ℕ → SmtpState → Run
challenged refused stack server end chal s =
    if leb chal_size (length chal) then overrun else elim (consume (end + 2) s) [
      | none ↦ overrun
      | some s' ↦ respond refused stack server (text_of chal) (record s' { state = state_auth })
    ]

pub smtp_send_challenge : Bool → List ℕ → SmtpServer → SmtpState → Run
smtp_send_challenge refused stack server s = elim (find_end s.inbuf) [
  | none ↦ ran s []
  | some end ↦
      if starts_with code_334 s.inbuf
      then elim (b64_decode (take (end - 4) (drop 4 s.inbuf)) chal_size) [
        | bad_input ↦ fails s
        | overflow ↦ fails s
        | written chal ↦ challenged refused stack server end chal s
      ]
      else fails s
]
