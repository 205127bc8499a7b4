-- ===== src/Http/Ota/Tests.antt =====
-- The theorems about http/url_ota.c for a concrete flash, key and application.
use esp8266_toolbox.Base.{
  ℕ, ◌+◌, ◌*◌, ◌/◌, ◌%◌, ◌≤◌, ◌<◌, ◌≡◌, ◌≢◌, refl, sym, ap, ◌∙◌, ◌⊎◌, inl, inr, true, false, some,
  Bool-cases, ◌==◌, List, [], ◌∷◌, ◌++◌, length, length-replicate, replicate, get_or, All,
  if◌then◌else◌, arith,
}
use esp8266_toolbox.Crypto.Bigint.{Bigint, hexchar}
use esp8266_toolbox.Crypto.Bigint.Hex.{Reads}
use esp8266_toolbox.Crypto.Bigint.Bits.{Holds}
use esp8266_toolbox.Crypto.Bigint.Value.{replicate-IsByte, replicate-value, value}
use esp8266_toolbox.Crypto.Sha256.{sha256_init}
use esp8266_toolbox.Http.Process.{HttpClient}
use esp8266_toolbox.Http.Ota.{
  begun, choose_slot, http_url_ota_push, judged, Machine, OtaState, ota_begin, ota_size_kb,
  receive_rest, refuses,
}
use esp8266_toolbox.Http.Ota.Verify.{check_text, Device, genuine}
use esp8266_toolbox.Http.Ota.Finish.{sha256_of}
use esp8266_toolbox.Http.Ota.Flash.{Spi}
use esp8266_toolbox.Http.Ota.Interleaved.{
  arrives, here, next, Reach, Reach-kept, requests, Shared, update,
}
use esp8266_toolbox.Http.Ota.Outcome.{Answered, http_url_ota_push-Answered, Sound}
use esp8266_toolbox.Http.Ota.Sector.{Works}
use esp8266_toolbox.Http.Ota.Signature.{check_text_lem, expected, zero_signature}
use esp8266_toolbox.Http.Ota.Slot.{free_sector, Fresh, Runs}
use esp8266_toolbox.Http.Ota.Upload.{IsPlain, upload_lem}
use esp8266_toolbox.Param.{map_4m_256_256}

-- What was written to a sector; 4096 bytes of 255 where that is no sector.
whole : List ℕ → List ℕ
whole bytes = if length bytes == 4096 then bytes else replicate 4096 255

whole_self : (bytes : List ℕ) → length bytes ≡ 4096 → whole bytes ≡ bytes
unfolding whole
whole_self bytes e = let p : (length bytes == 4096) ≡ true = ground (arith, e) in rw p refl

length-whole : (bytes : List ℕ) → length (whole bytes) ≡ 4096
unfolding whole
length-whole bytes = elim (Bool-cases (length bytes == 4096)) [
  | inl p ↦ rw p (ground (arith, p))
  | inr p ↦ rw p (length-replicate {A = ℕ} 4096 255)
]

put : (ℕ → List ℕ) → ℕ → List ℕ → ℕ → List ℕ
put f s bytes t = if t == s then bytes else f t

put_self : (f : ℕ → List ℕ) (s t : ℕ) (bytes : List ℕ) → t ≡ s → put f s bytes t ≡ bytes
unfolding put
put_self f s t bytes e = let p : (t == s) ≡ true = ground (arith, e) in rw p refl

put_others : (f : ℕ → List ℕ) (s t : ℕ) (bytes : List ℕ) → s ≢ t → put f s bytes t ≡ f t
unfolding put
put_others f s t bytes ne = let p : (t == s) ≡ false = ground (arith, ne) in rw p refl

read_back_lem :
    (f : ℕ → List ℕ) (s : ℕ) (bytes : List ℕ)
    → some (whole (f (4096 * s / 4096))) ≡ some bytes
    → bytes ≡ whole (f s)
read_back_lem f s bytes e =
    let at : 4096 * s / 4096 ≡ s = omega arith in
    let e' : some (whole (f s)) ≡ some bytes = ap (λ (t : ℕ). some (whole (f t))) (sym at) ∙ e in cc

-- A flash that never fails.
abbrev ideal : Spi
ideal = record {
  Flash = ℕ → List ℕ;
  erase = λ f s. (put f s [], true);
  write = λ f a bytes. (put f (a / 4096) bytes, true);
  read = λ f a n. some (whole (f (a / 4096)));
  sector = λ f s. whole (f s);
  write-erase = λ f s bytes _ _ size.
      ap whole (put_self (put f s []) (4096 * s / 4096) s bytes (omega arith))
      ∙ whole_self bytes size;
  erase_others = λ f s t ne. ap whole (put_others f s t [] ne);
  write_others =
      λ f s t bytes _ ne. ap whole (put_others f (4096 * s / 4096) t bytes (omega (arith, ne)));
  read_lem = read_back_lem;
  length-sector = λ f s. length-whole (f s);
}

ideal-Works : Works ideal
ideal-Works = record {
  erases = λ f s. refl;
  writes = λ f a bytes. refl;
  reads = λ f a n. (whole (f (a / 4096)), refl);
}

-- Keys of two bytes: 889, and the exponent 35.
abbrev number_of : ℕ → ℕ → Bigint
number_of low high = record { bytes = 2; bits = 0; octets = low ∷ high ∷ replicate 148 0 }

number_of-Holds :
    (low high : ℕ) → low < 256 → high < 256 → Holds (number_of low high) 16 (low + 256 * high)
unfolding value
number_of-Holds low high hl hh = record {
  full = refl;
  octets-IsByte = (hl, (hh, replicate-IsByte 148));
  partial = omega arith;
  width = omega arith;
  number = omega (arith, replicate-value 148);
  fits = omega (arith, hl, hh);
}

abbrev device : Device
device = record {
  flash_map = map_4m_256_256;
  userbin_addr = 4096;
  pubkey_mod = number_of 121 3;
  pubkey_exp = number_of 35 0;
}

device-Runs : Runs device 512
unfolding ota_size_kb
device-Runs = record { supported = refl; slot = inl refl }

-- "/ota/push" and the signature "1f".
abbrev push_page : List ℕ
push_page = 47 ∷ 111 ∷ 116 ∷ 97 ∷ 47 ∷ 112 ∷ 117 ∷ 115 ∷ 104 ∷ []

abbrev sig_text : List ℕ
sig_text = b'1' ∷ b'f' ∷ []

push_page-IsPlain : All IsPlain push_page
push_page-IsPlain = omega arith

-- Three of the five bytes have arrived with the request.
abbrev uploader : HttpClient
uploader = record {
  state = 1;
  method = 1;
  url = push_page ++ 63 ∷ (sig_text ++ 0 ∷ []);
  host = [];
  buf = 7 ∷ 8 ∷ 9 ∷ replicate 2045 0;
  bufused = 3;
  postused = 0;
  postlen = 5;
}

abbrev image_bytes : List ℕ
image_bytes = 7 ∷ 8 ∷ 9 ∷ 1 ∷ 2 ∷ []

abbrev ota_start : OtaState
ota_start = record {
  client = 0;
  sha256 = record { buf = replicate 64 3; buflen = 0; totallen = 0; h = [] };
  newaddr_beg = 0;
  newaddr_cur = 0;
  appsize = 0;
  secbuf = replicate 4096 0;
  secused = 0;
}

abbrev empty_flash : ℕ → List ℕ
empty_flash s = []

abbrev start_machine : Machine (ℕ → List ℕ)
start_machine = record { ota = ota_start; client = uploader; flash = empty_flash }

start-Fresh : Fresh ideal start_machine 512 uploader.url image_bytes (1 ∷ 2 ∷ [])
start-Fresh = record {
  buffer = (refl, omega arith);
  sector_size = length-replicate {A = ℕ} 4096 0;
  untouched = refl;
  posted = refl;
  page = refl;
  total = refl;
  limit = omega arith;
  used = refl;
  parts = refl;
  sizes = refl;
}

upload_lem_example :
    (m' : Machine (ℕ → List ℕ)) × (receive_rest ideal device 2
        (http_url_ota_push ideal device 2 start_machine)
        ((1 ∷ 2 ∷ []) ∷ [])
      ≡ some (judged m' (check_text device sig_text (sha256_of image_bytes))))
    × ((i : ℕ)
        → i < length image_bytes
        → get_or (whole (m'.flash (free_sector 512 4096 + i / 4096))) (i % 4096) 0
          ≡ get_or image_bytes i 0)
    × ((t : ℕ)
        → (t < free_sector 512 4096)
          ⊎ (free_sector 512 4096 + (length image_bytes + 4095) / 4096 ≤ t)
        → whole (m'.flash t) ≡ whole (empty_flash t))
upload_lem_example =
    upload_lem ideal ideal-Works device 512 2 start_machine push_page sig_text [] image_bytes
      ((1 ∷ 2 ∷ []) ∷ []) device-Runs push_page-IsPlain (omega arith) (omega arith)
      (length-replicate {A = ℕ} 64 3) start-Fresh

start-Sound : Sound ideal device 512 2 ota_start uploader
start-Sound = record {
  sector_size = length-replicate {A = ℕ} 4096 0;
  bounded = λ _ pos. absurd (omega (arith, pos));
}

http_url_ota_push-Answered_example :
    Answered ideal device 512 2 empty_flash ota_start
      (http_url_ota_push ideal device 2 start_machine)
http_url_ota_push-Answered_example =
    http_url_ota_push-Answered ideal device 512 2 start_machine device-Runs start-Sound

check_text_lem_example :
    check_text device sig_text (1 ∷ 2 ∷ []) ≡ expected 16 889 35 sig_text (1 ∷ 15 ∷ []) (1 ∷ 2 ∷ [])
unfolding Reads hexchar
check_text_lem_example =
    check_text_lem device 16 16 35 889 sig_text (1 ∷ 15 ∷ []) (1 ∷ 2 ∷ [])
      (number_of-Holds 35 0 (omega arith) (omega arith))
      (number_of-Holds 121 3 (omega arith) (omega arith)) (omega arith) (omega arith) (omega arith)
      (refl, (refl, tt)) (omega arith)

-- The SHA-256 of the bytes 0 and 92 starts with a zero byte.
zero_signature_example : check_text device (48 ∷ []) (0 ∷ 188 ∷ 75 ∷ []) ≡ genuine
zero_signature_example =
    zero_signature device 16 16 35 889 (188 ∷ 75 ∷ [])
      (number_of-Holds 35 0 (omega arith) (omega arith))
      (number_of-Holds 121 3 (omega arith) (omega arith)) (omega arith) (omega arith) (omega arith)
      (omega arith) (omega arith)

-- A second client asks for the page with GET, bytes of it arrive, and it is refused.
abbrev idle : Shared (ℕ → List ℕ)
idle = record { ota = ota_start; flash = empty_flash; clients = λ id. uploader }

abbrev getter : HttpClient
getter = record uploader { state = 2; method = 0; bufused = 0; postlen = 0 }

abbrev refused : Machine (ℕ → List ℕ)
refused = record {
  ota = record ota_start {
    client = 1;
    sha256 = sha256_init ota_start.sha256;
    newaddr_beg = 266240;
    newaddr_cur = 266240;
  };
  client = getter;
  flash = empty_flash;
}

push_get :
    http_url_ota_push ideal device 1
      (record { ota = ota_start; client = getter; flash = empty_flash })
    ≡ refuses refused
unfolding http_url_ota_push begun ota_begin choose_slot ota_size_kb
push_get = refl

abbrev asked : Shared (ℕ → List ℕ)
asked = record idle { clients = update idle.clients 1 getter }

abbrev answered : Shared (ℕ → List ℕ)
answered = record {
  ota = refused.ota;
  flash = empty_flash;
  clients = update asked.clients 1 getter;
}

refused_Reach : Reach ideal device idle answered
unfolding update
refused_Reach =
    next (next here (requests idle 1 getter refl))
      (arrives asked 1 getter refused refl refl (rw push_get refl))

Reach-kept_example :
    ((t : ℕ)
      → (t < free_sector 512 4096) ⊎ (free_sector 512 4096 + 236 * 1024 / 4096 ≤ t)
      → whole (answered.flash t) ≡ whole (idle.flash t))
    × ((t : ℕ)
        → 4096 ≤ 4096 * t
        → 4096 * t < 4096 + 236 * 1024
        → whole (answered.flash t) ≡ whole (idle.flash t))
Reach-kept_example =
    Reach-kept ideal device 512 device-Runs (length-replicate {A = ℕ} 4096 0) (λ id. refl)
      refused_Reach
