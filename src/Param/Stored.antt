-- ===== src/Param/Stored.antt =====
-- What a stored parameter reads back as, and what the checks of param.c let through.
use esp8266_toolbox.Base.{
  ℕ, ◌+◌, ◌≤◌, ◌≡◌, refl, ◌∙◌, ap, true, false, ltb, if◌then◌else◌, Bool-cases, Option-cases, inl,
  inr, some, none, List, ◌∷◌, ◌++◌, length, take, drop, take_all, arith,
}
use esp8266_toolbox.Base.Memory.{overlay, length-overlay, take-drop-overlay}
use esp8266_toolbox.Param.Storage.{Sdk}
use esp8266_toolbox.Param.{
  FlashMap, size_kb, param_sector, magic, same_bytes, Outcome, done, failed, overrun, param_store,
  param_retrieve, buf_size,
}

not_ltb : (a b : ℕ) → ltb a b ≡ false → b ≤ a
not_ltb a b h = ground arith

le→not_ltb : (a b : ℕ) → b ≤ a → ltb a b ≡ false
le→not_ltb a b h = ground arith

-- What a success of `param_store` has done.
module _ (sdk : Sdk) where
  open sdk use {Flash, load, save, load-save, load_size}

  record Saved (map : FlashMap) (f : Flash) (offset : ℕ) (val : List ℕ) (g : Flash) : Type 0 where
    kb : ℕ
    buf : List ℕ
    known : size_kb map ≡ some kb
    loaded : load f (param_sector kb) 0 buf_size ≡ some buf
    fits : offset + length magic + length val ≤ buf_size
    saved :
        save f (param_sector kb) (overlay (overlay buf offset magic) (offset + length magic) val)
        ≡ some g

  -- The end of `param_store`, from the test of the offset on.
  store_end :
      {map : FlashMap} {f g : Flash} {offset : ℕ} {val : List ℕ} (kb : ℕ) (buf : List ℕ)
      → size_kb map ≡ some kb
      → load f (param_sector kb) 0 buf_size ≡ some buf
      → (if ltb buf_size (offset + length magic + length val)
          then overrun
          else elim (save f
                (param_sector kb)
                (overlay (overlay buf offset magic) (offset + length magic) val))
              as (λ _. Outcome Flash) [ none ↦ failed | some flash' ↦ done flash' ])
        ≡ done g
      → Saved map f offset val g
  store_end {f} {offset} {val} kb buf e l h =
      let written = overlay (overlay buf offset magic) (offset + length magic) val in
      elim (Bool-cases (ltb buf_size (offset + length magic + length val))) [
        | inl out ↦ let h1 = rw out at h in cc
        | inr within ↦
            let h1 = rw within at h in
            elim (Option-cases (save f (param_sector kb) written)) [
              | inl s ↦ let h2 = rw s at h1 in cc
              | inr (g', s) ↦
                  let h2 = rw s at h1 in
                  record {
                    kb = kb;
                    buf = buf;
                    known = e;
                    loaded = l;
                    fits = not_ltb buf_size (offset + length magic + length val) within;
                    saved = cc;
                  }
            ]
      ]

  param_store-Saved :
      (map : FlashMap) (f : Flash) (offset : ℕ) (val : List ℕ) (g : Flash)
      → param_store sdk map f offset val ≡ done g
      → Saved map f offset val g
  unfolding param_store
  param_store-Saved map f offset val g h = elim (Option-cases (size_kb map)) [
    | inl e ↦ let h1 = rw (e, param_store) at h in cc
    | inr (kb, e) ↦
        let h1 = rw (e, param_store) at h in
        elim (Bool-cases (ltb buf_size (length magic + length val))) [
          | inl long ↦ let h2 = rw long at h1 in cc
          | inr short ↦
              let h2 = rw short at h1 in
              elim (Option-cases (load f (param_sector kb) 0 buf_size)) [
                | inl l ↦ let h3 = rw l at h2 in cc
                | inr (buf, l) ↦ let h3 = rw l at h2 in store_end kb buf e l h3
              ]
        ]
  ]

  retrieve_of_load :
      (map : FlashMap) (f : Flash) (offset len kb : ℕ) (buf : List ℕ)
      → size_kb map ≡ some kb
      → length magic + len ≤ buf_size
      → load f (param_sector kb) offset (length magic + len) ≡ some buf
      → same_bytes 1 buf magic ≡ true
      → param_retrieve sdk map f offset len ≡ done (take len (drop (length magic) buf))
  unfolding param_retrieve
  retrieve_of_load map f offset len kb buf e fits l same =
      rw (e, param_retrieve, le→not_ltb buf_size (length magic + len) fits, l, same)

  -- What was stored with success is retrieved, byte for byte, at the same offset and length.
  pub param_retrieve-param_store :
      (map : FlashMap) (f g : Flash) (offset : ℕ) (val : List ℕ)
      → param_store sdk map f offset val ≡ done g
      → param_retrieve sdk map g offset (length val) ≡ done val
  param_retrieve-param_store map f g offset val h =
      let v = param_store-Saved map f offset val g h in
      let inner = overlay v.buf offset magic in
      let size : length v.buf ≡ buf_size =
        load_size f (param_sector v.kb) 0 buf_size v.buf v.loaded in
      let fits = v.fits in
      let inner_size : length inner ≡ buf_size =
        length-overlay v.buf offset magic (omega arith) ∙ size in
      let back =
        load-save f g (param_sector v.kb) offset (length magic + length val)
          (overlay inner (offset + length magic) val) v.saved
          (omega (arith, length-overlay inner (offset + length magic) val)) in
      retrieve_of_load map g offset (length val) v.kb (magic ++ val) v.known (omega arith)
        (back
          ∙ ap some
              (take-drop-overlay v.buf offset (offset + length magic) magic val refl (omega arith)))
        (unfold same_bytes in refl)
      ∙ ap done (take_all (length val) val (omega arith))

  -- Only the first of the four magic bytes is compared: whatever stands in the other three, the bytes
  -- behind them are returned as stored.
  pub param_retrieve_weak :
      (map : FlashMap) (f : Flash) (offset len kb b1 b2 b3 : ℕ) (rest : List ℕ)
      → size_kb map ≡ some kb
      → len + 4 ≤ buf_size
      → load f (param_sector kb) offset (4 + len) ≡ some (0xca ∷ b1 ∷ b2 ∷ b3 ∷ rest)
      → param_retrieve sdk map f offset len ≡ done (take len rest)
  param_retrieve_weak map f offset len kb b1 b2 b3 rest e fits l =
      retrieve_of_load map f offset len kb (0xca ∷ b1 ∷ b2 ∷ b3 ∷ rest) e (omega arith) l
        (unfold same_bytes in refl)
