-- ===== src/Http/Server/Entries.antt =====
-- An open connection with an entry owns it; a connection that is made or ends keeps this.
use esp8266_toolbox.Base.{
  ℕ, ◌<◌, ◌≡◌, ◌≢◌, refl, sym, ap, subst, ◌∙◌, inl, inr, Bool, true, false, Bool-cases, none, some,
  List, length, length-set, set, ◌⊎◌, get_or-set_ne, get_or-set_self, ◌==◌, arith,
}
use esp8266_toolbox.Http.Clients.{cleared, Slot}
use esp8266_toolbox.Http.Clients.Slots.{http_server_conn_cb-cases}
use esp8266_toolbox.Http.Server.{
  connected, entered, free, no_slot, Server, set_reverse, slot_at, post_kill,
}
use esp8266_toolbox.Http.Server.Steps.{mark, Open}

-- The entry is the connection's.
pub record Owns (slots : List Slot) (c i : ℕ) : Type 0 where
  pub inside : i < length slots
  pub inuse : (slot_at slots i).inuse ≡ true
  pub conn : (slot_at slots i).conn ≡ c

abbrev pub AllOwn : Server × Open → Type 0
AllOwn (s, live) = (c i : ℕ) → live c ≡ true → s.reverse c ≡ some i → Owns s.slots c i

-- A write to another entry.
pub Owns-set :
    (slots : List Slot) (c i j : ℕ) (v : Slot) → i ≢ j → Owns slots c j → Owns (set slots i v) c j
Owns-set slots c i j v ne o =
    let same : slot_at (set slots i v) j ≡ slot_at slots j = get_or-set_ne slots i j v no_slot ne in
    record {
      inside = omega (arith, o.inside, length-set slots i v);
      inuse = ap (λ q. q.inuse) same ∙ o.inuse;
      conn = ap (λ q. q.conn) same ∙ o.conn;
    }

-- A write to the connection's own entry.
pub Owns-set_self :
    (slots : List Slot) (c i : ℕ) (v : Slot)
    → i < length slots
    → v.inuse ≡ true
    → v.conn ≡ c
    → Owns (set slots i v) c i
Owns-set_self slots c i v h e e' =
    let same : slot_at (set slots i v) i ≡ v = get_or-set_self slots i v no_slot h in
    record {
      inside = omega (arith, h, length-set slots i v);
      inuse = ap (λ q. q.inuse) same ∙ e;
      conn = ap (λ q. q.conn) same ∙ e';
    }

-- Different entries, when one is in use and the other is not.
inuse-ne :
    (slots : List Slot) (i j : ℕ)
    → (slot_at slots i).inuse ≡ false
    → (slot_at slots j).inuse ≡ true
    → i ≢ j
inuse-ne slots i j p q e =
    let b : true ≡ false = sym q ∙ ap (λ k. (slot_at slots k).inuse) (sym e) ∙ p in
    ground (arith, b)

-- The entry of a connection that is made.
new_slot : ℕ → Slot
new_slot conn = record { inuse = true; conn = conn; client = cleared }

-- The server after an entry was taken, and after none was.
taken : ℕ → ℕ → Server → Server
taken conn k s = record s {
  slots = set s.slots k (new_slot conn);
  reverse = set_reverse s.reverse conn (some k);
}

refused : ℕ → Server → Server
refused conn s = post_kill conn (record s { reverse = set_reverse s.reverse conn none })

connected-cases :
    (disconcb recvcb : Bool) (conn : ℕ) (s : Server)
    → ((k : ℕ) × (k < length s.slots)
        × ((slot_at s.slots k).inuse ≡ false)
        × (connected disconcb recvcb conn s ≡ taken conn k s))
      ⊎ (connected disconcb recvcb conn s ≡ refused conn s)
unfolding connected entered taken refused new_slot
connected-cases disconcb recvcb conn s =
    elim (http_server_conn_cb-cases disconcb recvcb conn s.slots no_slot) [
      | inl (k, h, f, eq) ↦ inl (k, h, f, ap (entered conn s) eq)
      | inr eq ↦ inr (ap (entered conn s) eq)
    ]

taken-AllOwn :
    (conn k : ℕ) (s : Server) (live : Open)
    → k < length s.slots
    → (slot_at s.slots k).inuse ≡ false
    → AllOwn (s, live)
    → AllOwn (taken conn k s, mark live conn true)
unfolding taken new_slot
taken-AllOwn conn k s live h f own c i l e = elim (Bool-cases (c == conn)) [
  | inl p ↦
      let at : some k ≡ some i = (let e' = rw p at e in e') in
      let same : conn ≡ c = grind (arith, p) in
      let mine = Owns-set_self s.slots conn k (new_slot conn) h refl refl in
      subst (λ d. Owns (set s.slots k (new_slot conn)) d i) same
        (subst (λ j. Owns (set s.slots k (new_slot conn)) conn j) (let q : k ≡ i = cc in q) mine)
  | inr p ↦
      let l' : live c ≡ true = (let q = rw p at l in q) in
      let e' : s.reverse c ≡ some i = (let q = rw p at e in q) in
      let o = own c i l' e' in
      Owns-set s.slots c k i (new_slot conn) (inuse-ne s.slots k i f o.inuse) o
]

refused-AllOwn :
    (conn : ℕ) (s : Server) (live : Open)
    → AllOwn (s, live)
    → AllOwn (refused conn s, mark live conn true)
unfolding refused
refused-AllOwn conn s live own c i l e = elim (Bool-cases (c == conn)) [
  | inl p ↦ let e' : none ≡ some i = (let q = rw p at e in q) in cc
  | inr p ↦
      let l' : live c ≡ true = (let q = rw p at l in q) in
      let e' : s.reverse c ≡ some i = (let q = rw p at e in q) in own c i l' e'
]

pub connected-AllOwn :
    (disconcb recvcb : Bool) (conn : ℕ) (s : Server) (live : Open)
    → AllOwn (s, live)
    → AllOwn (connected disconcb recvcb conn s, mark live conn true)
connected-AllOwn disconcb recvcb conn s live own = elim (connected-cases disconcb recvcb conn s) [
  | inl (k, h, f, eq) ↦
      subst (λ t. AllOwn (t, mark live conn true)) (sym eq) (taken-AllOwn conn k s live h f own)
  | inr eq ↦ subst (λ t. AllOwn (t, mark live conn true)) (sym eq) (refused-AllOwn conn s live own)
]

-- An entry is given up.
pub freed-AllOwn :
    (conn k : ℕ) (s : Server) (live : Open)
    → Owns s.slots conn k
    → AllOwn (s, live)
    → AllOwn (record s { slots = free s.slots k }, mark live conn false)
unfolding free
freed-AllOwn conn k s live mine own c i l e = elim (Bool-cases (c == conn)) [
  | inl p ↦ let l' : false ≡ true = (let q = rw p at l in q) in cc
  | inr p ↦
      let l' : live c ≡ true = (let q = rw p at l in q) in
      let o = own c i l' e in
      let ne : k ≢ i = λ same.
        (let q : c ≡ conn =
            sym o.conn ∙ ap (λ j. (slot_at s.slots j).conn) (sym same) ∙ mine.conn in
          grind (arith, p, q)) in
      Owns-set s.slots c k i (record (slot_at s.slots k) { inuse = false }) ne o
]
