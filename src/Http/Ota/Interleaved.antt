-- ===== src/Http/Ota/Interleaved.antt =====
-- Any number of clients that use `http_url_ota_push` at the same time: they share `otastate` and the
-- flash.
use esp8266_toolbox.Base.{
  ℕ, ◌+◌, ◌*◌, ◌/◌, ◌≤◌, ◌<◌, ◌≡◌, refl, sym, ◌∙◌, ◌⊎◌, inl, inr, false, Bool-cases, ◌==◌, length,
  subst, if◌then◌else◌, arith,
}
use esp8266_toolbox.Http.Process.{HttpClient}
use esp8266_toolbox.Http.Ota.{
  accepts, http_url_ota_push, Machine, OtaState, overflows, refuses, stuck, Reply, waits,
}
use esp8266_toolbox.Http.Ota.Verify.{Device}
use esp8266_toolbox.Http.Ota.Flash.{Spi}
use esp8266_toolbox.Http.Ota.Outcome.{
  Answered, http_url_ota_push-Answered, Left, slot_sectors, Sound,
}
use esp8266_toolbox.Http.Ota.Slot.{free_sector, max_app, ota_size_kb-IsSize, Runs}

pub record Shared (F : Type 0) : Type 0 where
  pub ota : OtaState
  pub flash : F
  pub clients : ℕ → HttpClient

unfoldable pub update : (ℕ → HttpClient) → ℕ → HttpClient → ℕ → HttpClient
update clients id c j = if j == id then c else clients j

-- What a reply leaves behind; for a write past `hash3`, the state in front of it.
abbrev pub Leaves : {F : Type 0} → Reply F → Machine F → Type 0
Leaves (waits m') m = m' ≡ m
Leaves (accepts m') m = m' ≡ m
Leaves (refuses m') m = m' ≡ m
Leaves (overflows m') m = m' ≡ m
Leaves stuck m = ⊥

module _ (spi : Spi) (d : Device) where
  -- A request of a client is parsed, which is new or in a connection that was closed; or bytes arrive
  -- for one, whatever they are, and the handler is called.
  pub data Step : Shared spi.Flash → Shared spi.Flash → Type 0 where
    requests :
        (s : Shared spi.Flash) (id : ℕ) (c : HttpClient)
        → c.postused ≡ 0
        → Step s (record s { clients = update s.clients id c })
    arrives :
        (s : Shared spi.Flash) (id : ℕ) (c : HttpClient) (m : Machine spi.Flash)
        → c.postused ≡ (s.clients id).postused
        → c.postlen ≡ (s.clients id).postlen
        → Leaves
            (http_url_ota_push spi d id (record { ota = s.ota; client = c; flash = s.flash }))
            m
        → Step s (record { ota = m.ota; flash = m.flash; clients = update s.clients id m.client })

  pub data Reach (s : Shared spi.Flash) : Shared spi.Flash → Type 0 where
    here : Reach s s
    next : {t u : Shared spi.Flash} → Reach s t → Step t u → Reach s u

  module _ (kb : ℕ) (runs : Runs d kb) where
    abbrev b : ℕ
    b = free_sector kb d.userbin_addr

    abbrev AllSound : Shared spi.Flash → Type 0
    AllSound s = (id : ℕ) → Sound spi d kb id s.ota (s.clients id)

    abbrev Unharmed : spi.Flash → spi.Flash → Type 0
    Unharmed f g = (t : ℕ) → (t < b) ⊎ (b + slot_sectors kb ≤ t) → spi.sector g t ≡ spi.sector f t

    Leaves-Left :
        (id : ℕ) (f : spi.Flash) (o : OtaState) (r : Reply spi.Flash) (m : Machine spi.Flash)
        → Leaves r m
        → Answered spi d kb id f o r
        → Left spi d kb id f o m
    Leaves-Left id f o (waits m') m e a = subst (Left spi d kb id f o) e a
    Leaves-Left id f o (accepts m') m e a = subst (Left spi d kb id f o) e a
    Leaves-Left id f o (refuses m') m e a = subst (Left spi d kb id f o) e a
    Leaves-Left id f o (overflows m') m e a = subst (Left spi d kb id f o) e a.0
    Leaves-Left id f o stuck m e a = absurd e

    -- Other bytes in the buffer.
    Sound-same :
        (id : ℕ) (o : OtaState) (c c' : HttpClient)
        → c'.postused ≡ c.postused
        → c'.postlen ≡ c.postlen
        → Sound spi d kb id o c
        → Sound spi d kb id o c'
    Sound-same id o c c' e e' v = record {
      sector_size = v.sector_size;
      bounded = λ mine pos.
          let w = v.bounded mine (omega (arith, pos, e)) in
          record {
            place = w.place;
            owner = w.owner;
            start = w.start;
            cursor = w.cursor;
            low = w.low;
            size = w.size;
            filled = w.filled;
            limit = omega (arith, w.limit, e');
            taken = omega (arith, w.taken, e, e');
            progress = progress_same w.place o.secused w.progress;
          };
    }
      where
        progress_same :
            (k u : ℕ)
            → (4096 * k + u ≤ 4096 * b + c.postused) ⊎ (c.postused ≡ c.postlen)
            → (4096 * k + u ≤ 4096 * b + c'.postused) ⊎ (c'.postused ≡ c'.postlen)
        progress_same k u (inl h) = inl (omega (arith, h, e))
        progress_same k u (inr h) = inr (omega (arith, h, e, e'))

    -- The other clients, after a call for `id`.
    Sound-others :
        (id j : ℕ) (o o' : OtaState) (c : HttpClient)
        → (j == id) ≡ false
        → length o'.secbuf ≡ 4096
        → (o'.client ≡ id) ⊎ (o' ≡ o)
        → Sound spi d kb j o c
        → Sound spi d kb j o' c
    Sound-others id j o o' c ne size (inl mine) v = record {
      sector_size = size;
      bounded = λ yours _. absurd (ground (arith, ne, mine, yours));
    }
    Sound-others id j o o' c ne size (inr e) v = subst (λ q. Sound spi d kb j q c) (sym e) v

    Step-AllSound :
        {s u : Shared spi.Flash} → Step s u → AllSound s → AllSound u × Unharmed s.flash u.flash
    unfolding update
    Step-AllSound (requests s id c e) v = (
      λ j. elim (Bool-cases (j == id)) [
        | inl p ↦ rw p (record {
          sector_size = (v j).sector_size;
          bounded = λ _ pos. absurd (omega (arith, pos, e));
        })
        | inr p ↦ rw p (v j)
      ],
      λ t _. refl,
    )
    Step-AllSound (arrives s id c m e e' r) v =
        let before : Machine spi.Flash = record { ota = s.ota; client = c; flash = s.flash } in
        let (sound, same, owner) =
          Leaves-Left id s.flash s.ota (http_url_ota_push spi d id before) m r (
            http_url_ota_push-Answered spi d kb id before runs
              (Sound-same id s.ota (s.clients id) c e e' (v id))) in
        (
          λ j. elim (Bool-cases (j == id)) [
            | inl p ↦
                let me : id ≡ j = ground (arith, p) in
                rw p (subst (λ (q : ℕ). Sound spi d kb q m.ota m.client) me sound)
            | inr p ↦
                rw p (Sound-others id j s.ota m.ota (s.clients j) p sound.sector_size owner (v j))
          ],
          same,
        )

    Reach-AllSound :
        {s u : Shared spi.Flash} → Reach s u → AllSound s → AllSound u × Unharmed s.flash u.flash
    Reach-AllSound here v = (v, λ t _. refl)
    Reach-AllSound (next r step) v =
        let (v1, same1) = Reach-AllSound r v in
        let (v2, same2) = Step-AllSound step v1 in (v2, λ t out. same2 t out ∙ same1 t out)

    other_slot :
        (t : ℕ)
        → d.userbin_addr ≤ 4096 * t
        → 4096 * t < d.userbin_addr + max_app kb
        → (t < b) ⊎ (b + slot_sectors kb ≤ t)
    other_slot t low high =
        ground (arith, ota_size_kb-IsSize d.flash_map kb runs.supported, runs.slot)

-- However requests and arrivals of any number of clients interleave, and whatever the flash refuses: if
-- no upload had begun, then every sector outside of the other slot keeps what it held, and so do those
-- of the running application. A call that would write past `hash3` counts with the state in front of
-- this write; what the write itself destroys, and what the program does after that, is not stated.
pub Reach-kept :
    (spi : Spi) (d : Device) (kb : ℕ) {s u : Shared spi.Flash}
    → Runs d kb
    → length s.ota.secbuf ≡ 4096
    → ((id : ℕ) → (s.clients id).postused ≡ 0)
    → Reach spi d s u
    → ((t : ℕ)
        → (t < free_sector kb d.userbin_addr)
          ⊎ (free_sector kb d.userbin_addr + max_app kb / 4096 ≤ t)
        → spi.sector u.flash t ≡ spi.sector s.flash t)
      × ((t : ℕ)
          → d.userbin_addr ≤ 4096 * t
          → 4096 * t < d.userbin_addr + max_app kb
          → spi.sector u.flash t ≡ spi.sector s.flash t)
Reach-kept spi d kb runs size idle r =
    let (_, same) = Reach-AllSound spi d kb runs r (λ id. record {
      sector_size = size;
      bounded = λ _ pos. absurd (omega (arith, pos, idle id));
    }) in
    (same, λ t low high. same t (other_slot spi d kb runs t low high))
