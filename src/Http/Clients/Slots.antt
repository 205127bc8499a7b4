-- ===== src/Http/Clients/Slots.antt =====
-- A new connection gets an entry that nobody uses, or none when all are in use.
use esp8266_toolbox.Base.{
  ℕ, suc, ◌<◌, ◌≡◌, refl, ap, Bool, true, false, Bool-cases, ◌⊎◌, inl, inr, none, some, List, [],
  ◌∷◌, length, All, set, get_or, ◌==◌, arith,
}
use esp8266_toolbox.Http.Clients.{cleared, free_slot, http_server_conn_cb, Slot}

free_slot-cases :
    (slots : List Slot) (d : Slot)
    → ((free_slot slots < length slots) × ((get_or slots (free_slot slots) d).inuse ≡ false))
      ⊎ ((free_slot slots ≡ length slots) × All (λ s. s.inuse ≡ true) slots)
unfolding free_slot
free_slot-cases [] d = inr (refl, tt)
free_slot-cases (s ∷ slots) d = elim (Bool-cases s.inuse) [
  | inl p ↦ elim (free_slot-cases slots d) [
    | inl h ↦ rw p (inl (omega (arith, h.0), h.1))
    | inr h ↦ rw p (inr (ap suc h.0, (refl, h.1)))
  ]
  | inr p ↦ rw p (inl (omega arith, refl))
]

-- With the callbacks registered: either the connection gets an entry that was not in use, with all its
-- fields cleared, and only that entry changes, or all entries are in use, nothing changes and the
-- connection gets none. (The last argument only names a value for reads outside of the table.)
pub http_server_conn_cb_lem :
    (conn : ℕ) (slots : List Slot) (d : Slot)
    → ((i : ℕ) × (i < length slots)
        × ((get_or slots i d).inuse ≡ false)
        × (http_server_conn_cb false false conn slots
            ≡ (set slots i (record { inuse = true; conn = conn; client = cleared }), some i)))
      ⊎ (All (λ s. s.inuse ≡ true) slots
          × (http_server_conn_cb false false conn slots ≡ (slots, none)))
unfolding http_server_conn_cb
http_server_conn_cb_lem conn slots d = elim (free_slot-cases slots d) [
  | inl h ↦
      let p : (free_slot slots == length slots) ≡ false = ground (arith, h.0) in
      inl (free_slot slots, h.0, h.1, rw p refl)
  | inr h ↦
      let p : (free_slot slots == length slots) ≡ true = ground (arith, h.0) in inr (h.1, rw p refl)
]

-- In any case the connection gets an entry that was not in use, or nothing changes.
pub http_server_conn_cb-cases :
    (disconcb recvcb : Bool) (conn : ℕ) (slots : List Slot) (d : Slot)
    → ((i : ℕ) × (i < length slots)
        × ((get_or slots i d).inuse ≡ false)
        × (http_server_conn_cb disconcb recvcb conn slots
            ≡ (set slots i (record { inuse = true; conn = conn; client = cleared }), some i)))
      ⊎ (http_server_conn_cb disconcb recvcb conn slots ≡ (slots, none))
unfolding http_server_conn_cb
http_server_conn_cb-cases true recvcb conn slots d = inr refl
http_server_conn_cb-cases false true conn slots d = inr refl
http_server_conn_cb-cases false false conn slots d = elim (http_server_conn_cb_lem conn slots d) [
  | inl h ↦ inl h
  | inr h ↦ inr h.1
]
