-- ===== src/Http/Clients/Receive.antt =====
-- The buffer holds what arrived, however it was cut into pieces, and never more than it can.
use esp8266_toolbox.Base.{
  ℕ, ◌+◌, ◌≤◌, ◌<◌, ◌≡◌, refl, ◌∙◌, Bool-cases, ◌⊎◌, inl, inr, none, some, Option, List, [], ◌∷◌,
  ◌++◌, false, length, take, ltb, arith,
}
use esp8266_toolbox.Base.Memory.{length-overlay, take-overlay}
use esp8266_toolbox.Http.Process.{HttpClient}
use esp8266_toolbox.Http.Clients.{append_bytes, buf_capacity, receive}

-- The bytes that have arrived and were not taken yet.
abbrev pub arrived : HttpClient → List ℕ
arrived c = take c.bufused c.buf

-- `buf` is the whole array, and the number of bytes in it is one that fits.
abbrev pub IsBuffer : HttpClient → Type 0
IsBuffer c = (length c.buf ≡ buf_capacity) × (c.bufused ≤ buf_capacity)

-- Bytes that fit.
pub receive_fits :
    (c : HttpClient) (bytes : List ℕ)
    → IsBuffer c
    → c.bufused + length bytes ≤ buf_capacity
    → (receive c bytes ≡ some (append_bytes c bytes))
      × IsBuffer (append_bytes c bytes)
      × (arrived (append_bytes c bytes) ≡ arrived c ++ bytes)
unfolding receive
receive_fits c bytes (size, used) fits =
    let p : ltb buf_capacity (c.bufused + length bytes) ≡ false = ground (arith, fits) in
    (
      rw p refl,
      (length-overlay c.buf c.bufused bytes (omega (arith, size, fits)) ∙ size, fits),
      take-overlay c.buf c.bufused (c.bufused + length bytes) bytes refl
          (omega (arith, size, fits)),
    )

-- What one arrival does, whether it fits or not.
pub receive-cases :
    (c : HttpClient) (bytes : List ℕ)
    → IsBuffer c
    → ((c' : HttpClient) × (receive c bytes ≡ some c')
        × IsBuffer c'
        × (arrived c' ≡ arrived c ++ bytes)
        × (c'.bufused ≡ c.bufused + length bytes))
      ⊎ ((buf_capacity < c.bufused + length bytes) × (receive c bytes ≡ none))
unfolding receive
receive-cases c bytes valid = elim (Bool-cases (ltb buf_capacity (c.bufused + length bytes))) [
  | inl p ↦ inr (ground (arith, p), rw p refl)
  | inr p ↦
      let (e, valid', text) = receive_fits c bytes valid (ground (arith, p)) in
      inl (append_bytes c bytes, e, valid', text, refl)
]

-- All arrivals while `http_process` waits for more and leaves the client alone.
pub receive_all : HttpClient → List (List ℕ) → Option HttpClient
receive_all c [] = some c
receive_all c (bytes ∷ pieces) = elim (receive c bytes) [
  | none ↦ none
  | some c' ↦ receive_all c' pieces
]

pub joined : List (List ℕ) → List ℕ
joined [] = []
joined (bytes ∷ pieces) = bytes ++ joined pieces
