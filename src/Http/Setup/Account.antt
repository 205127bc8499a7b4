-- ===== src/Http/Setup/Account.antt =====
-- The settings for mail that the six fields of the form in http/url_smtp.c make.
use esp8266_toolbox.Base.{
  ℕ, ◌%◌, ◌≤◌, ◌<◌, ◌≡◌, sym, ap, ◌∙◌, append-nil, All, refl, true, false, none, some, List, [],
  ◌∷◌, length, ◌==◌, leb, arith,
}
use esp8266_toolbox.Http.Form.{last_field, parsed}
use esp8266_toolbox.Http.Form.Fields.{Field, set_all}
use esp8266_toolbox.Http.Process.{atoi, digits_from}
use esp8266_toolbox.Http.Process.Decimal.{atoi-decimal, decimal, Ends, IsDigit}
use esp8266_toolbox.Http.Setup.{
  from_key, host_key, is_empty, is_key, lacking, pass_key, port_key, set_account, set_from,
  set_smtp, set_to, SmtpSettings, to_key, user_key,
}

-- The value of a field that fits its array, NUL included, and is not empty.
abbrev pub Fits : ℕ → List ℕ → Type 0
Fits size val = (1 ≤ length val) × (length val < size)

not_empty : (xs : List ℕ) → 1 ≤ length xs → is_empty xs ≡ false
unfolding is_empty
not_empty [] h = absurd (omega (arith, h))
not_empty (x ∷ xs) h = refl

abbrev pub field : List ℕ → List ℕ → List ℕ → Field
field name value sent = record { name = name; value = value; sent = sent }

module _ (s : SmtpSettings) (v : List ℕ) where
  pub set_from_lem : length v < 128 → set_smtp s from_key v ≡ some (record s { from = v })
  unfolding set_smtp set_account set_from set_to is_key
  set_from_lem h = let p : leb 128 (length v) ≡ false = ground (arith, h) in rw (p, set_smtp) refl

  set_to_lem : length v < 128 → set_smtp s to_key v ≡ some (record s { to = v })
  unfolding set_smtp set_account set_from set_to is_key
  set_to_lem h = let p : leb 128 (length v) ≡ false = ground (arith, h) in rw (p, set_smtp) refl

  set_host_lem :
      length v < 64
      → set_smtp s host_key v ≡ some (record s { server = record s.server { host = v } })
  unfolding set_smtp set_account set_from set_to is_key
  set_host_lem h = let p : leb 64 (length v) ≡ false = ground (arith, h) in rw (p, set_smtp) refl

  set_port_lem :
      set_smtp s port_key v ≡ some (record s { server = record s.server { port = atoi v % 65536 } })
  unfolding set_smtp set_account set_from set_to is_key
  set_port_lem = refl

  set_user_lem :
      length v < 64
      → set_smtp s user_key v ≡ some (record s { server = record s.server { user = v } })
  unfolding set_smtp set_account set_from set_to is_key
  set_user_lem h = let p : leb 64 (length v) ≡ false = ground (arith, h) in rw (p, set_smtp) refl

  set_pass_lem :
      length v < 64
      → set_smtp s pass_key v ≡ some (record s { server = record s.server { pass = v } })
  unfolding set_smtp set_account set_from set_to is_key
  set_pass_lem h = let p : leb 64 (length v) ≡ false = ground (arith, h) in rw (p, set_smtp) refl

pub set_to_long : (s : SmtpSettings) (v : List ℕ) → 128 ≤ length v → set_smtp s to_key v ≡ none
unfolding set_smtp set_account set_from set_to is_key
set_to_long s v h = let p : leb 128 (length v) ≡ true = ground (arith, h) in rw (p, set_smtp) refl

-- The values of the six fields, as a person fills them in.
pub record Account : Type 0 where
  pub from : List ℕ
  pub to : List ℕ
  pub host : List ℕ
  pub port : List ℕ
  pub user : List ℕ
  pub pass : List ℕ

-- What fits the arrays, and is not missing.
pub record Fit (a : Account) : Type 0 where
  pub from_fits : Fits 128 a.from
  pub to_fits : Fits 128 a.to
  pub host_fits : Fits 64 a.host
  pub port_digits : All IsDigit a.port
  pub port_given : 1 ≤ decimal a.port
  pub port_fits : decimal a.port < 65536
  pub user_fits : Fits 64 a.user
  pub pass_fits : Fits 64 a.pass

abbrev pub settings : Account → SmtpSettings
settings a = record {
  server = record { host = a.host; port = decimal a.port; user = a.user; pass = a.pass };
  from = a.from;
  to = a.to;
}

-- The fields in the order of the form, where `sent` is how the values are sent.
abbrev pub fields : Account → Account → List Field
fields a sent =
    field to_key a.to sent.to
    ∷ field host_key a.host sent.host
    ∷ field port_key a.port sent.port
    ∷ field user_key a.user sent.user
    ∷ field pass_key a.pass sent.pass
    ∷ []

-- The number of a port is stored as it is written.
port_number :
    (text : List ℕ)
    → All IsDigit text
    → 1 ≤ decimal text
    → decimal text < 65536
    → atoi text % 65536 ≡ decimal text
unfolding decimal
port_number [] h given fits = absurd (omega (arith, given))
port_number (c ∷ text) h given fits =
    let e : atoi (c ∷ text) ≡ decimal (c ∷ text) =
      ap atoi (sym (append-nil (c ∷ text)))
      ∙ atoi-decimal c text [] h no_more (omega (arith, fits)) in
    rw e (omega (arith, fits))
  where
    no_more : Ends []
    no_more n = unfold digits_from in refl

set_port-decimal :
    (s : SmtpSettings) (v : List ℕ)
    → All IsDigit v
    → 1 ≤ decimal v
    → decimal v < 65536
    → set_smtp s port_key v ≡ some (record s { server = record s.server { port = decimal v } })
set_port-decimal s v h given fits =
    set_port_lem s v
    ∙ ap (λ (n : ℕ). some (record s { server = record s.server { port = n } }))
        (port_number v h given fits)

pub set_all-smtp :
    (s : SmtpSettings) (a sent : Account)
    → Fit a
    → set_all set_smtp s (field from_key a.from sent.from) (fields a sent) ≡ parsed (settings a)
unfolding set_all last_field
set_all-smtp s a sent v =
    rw (set_from_lem s a.from v.from_fits.1, set_all)
      (rw (set_to_lem _ a.to v.to_fits.1, set_all)
        (rw (set_host_lem _ a.host v.host_fits.1, set_all)
          (rw (set_port-decimal _ a.port v.port_digits v.port_given v.port_fits, set_all)
            (rw (set_user_lem _ a.user v.user_fits.1, set_all)
              (rw (set_pass_lem _ a.pass v.pass_fits.1, last_field) refl)))))

pub complete : (a : Account) → Fit a → lacking (settings a) ≡ false
unfolding lacking
complete a v =
    let p0 : (decimal a.port == 0) ≡ false = ground (arith, v.port_given) in
    rw
      (
        not_empty a.host v.host_fits.0,
        p0,
        not_empty a.user v.user_fits.0,
        not_empty a.pass v.pass_fits.0,
        not_empty a.from v.from_fits.0,
        not_empty a.to v.to_fits.0,
      )
      refl
