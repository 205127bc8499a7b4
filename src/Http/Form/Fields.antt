-- ===== src/Http/Form/Fields.antt =====
-- The loop over the fields of a form against the fields that a client sends.
use esp8266_toolbox.Base.{
  ℕ, zero, suc, ◌<◌, ◌≡◌, ◌≢◌, refl, ap, true, false, Option, none, some, List, [], ◌∷◌, ◌++◌,
  length, length-append, All, ◌==◌, arith,
}
use mathlib.Core.Option
use esp8266_toolbox.Http.Form.{form_loop, last_field, overflow, parse_form, Parsed, split_at}
use esp8266_toolbox.Http.Form.Decode.{Encodes, url_decode-Encodes}

-- A field: its name, its value, and the value as it is sent.
pub record Field : Type 0 where
  pub name : List ℕ
  pub value : List ℕ
  pub sent : List ℕ

pub record IsField (f : Field) : Type 0 where
  pub no_equals : All (λ c. c ≢ b'=') f.name
  pub no_ampersand : All (λ c. c ≢ b'&') f.sent
  pub encoded : Encodes f.value f.sent

-- The fields as one text; there is at least one.
unfoldable pub print_form : Field → List Field → List ℕ
print_form f [] = f.name ++ b'=' ∷ f.sent
print_form f (g ∷ fields) = f.name ++ b'=' ∷ (f.sent ++ b'&' ∷ print_form g fields)

pub split_at-found :
    (c : ℕ) (before behind : List ℕ)
    → All (λ x. x ≢ c) before
    → split_at c (before ++ c ∷ behind) ≡ some (before, behind)
unfolding split_at
split_at-found c [] behind h = let e : (c == c) ≡ true = ground arith in rw e refl
split_at-found c (x ∷ before) behind h =
    let e : (x == c) ≡ false = ground (arith, h.0) in
    rw e (ap (Option.map (λ r. (x ∷ r.0, r.1))) (split_at-found c before behind h.1))

split_at-absent : (c : ℕ) (text : List ℕ) → All (λ x. x ≢ c) text → split_at c text ≡ none
unfolding split_at
split_at-absent c [] h = refl
split_at-absent c (x ∷ text) h =
    let e : (x == c) ≡ false = ground (arith, h.0) in
    rw e (ap (Option.map (λ r. (x ∷ r.0, r.1))) (split_at-absent c text h.1))

module _ {S : Type 0} (set : S → List ℕ → List ℕ → Option S) where
  -- One field after the other is set, until one does not fit.
  unfoldable pub set_all : S → Field → List Field → Parsed S
  set_all s f [] = last_field set s f.name f.value
  set_all s f (g ∷ fields) = elim (set s f.name f.value) [
    | none ↦ overflow s
    | some s' ↦ set_all s' g fields
  ]

  form_loop-print_form :
      (fuel : ℕ) (s : S) (f : Field) (fields : List Field)
      → All IsField (f ∷ fields)
      → length (print_form f fields) < fuel
      → form_loop set fuel s (print_form f fields) ≡ set_all s f fields
  unfolding form_loop print_form set_all
  form_loop-print_form zero s f fields v h = absurd (omega (arith, h))
  form_loop-print_form (suc fuel) s f [] v h =
      rw (split_at-found b'=' f.name f.sent v.0.no_equals, form_loop)
        (rw (split_at-absent b'&' f.sent v.0.no_ampersand, form_loop)
          (ap (last_field set s f.name) (url_decode-Encodes v.0.encoded)))
  form_loop-print_form (suc fuel) s f (g ∷ fields) v h =
      let rest : List ℕ = print_form g fields in
      let len1 = length-append f.name (b'=' ∷ (f.sent ++ b'&' ∷ rest)) in
      let len2 = length-append f.sent (b'&' ∷ rest) in
      rw (split_at-found b'=' f.name (f.sent ++ b'&' ∷ rest) v.0.no_equals, form_loop)
        (rw (split_at-found b'&' f.sent rest v.0.no_ampersand, form_loop)
          (rw (url_decode-Encodes v.0.encoded) (
            go (set s f.name f.value)
              (λ s'. form_loop-print_form fuel s' g fields v.1 (omega (arith, h, len1, len2))))))
    where
      go :
          (r : Option S)
          → ((s' : S) → form_loop set fuel s' (print_form g fields) ≡ set_all s' g fields)
          → elim r as (λ x. Parsed S) [
            | none ↦ overflow s
            | some s' ↦ form_loop set fuel s' (print_form g fields)
          ]
            ≡ elim r as (λ x. Parsed S) [ none ↦ overflow s | some s' ↦ set_all s' g fields ]
      go none ih = refl
      go (some s') ih = ih s'

  -- A form that a client sends behind the name of a page sets its fields one after the other.
  pub parse_form-print_form :
      (s : S) (page : List ℕ) (f : Field) (fields : List Field)
      → All (λ c. c ≢ b'?') page
      → All IsField (f ∷ fields)
      → parse_form set s (page ++ b'?' ∷ print_form f fields) ≡ set_all s f fields
  unfolding parse_form
  parse_form-print_form s page f fields h v =
      rw (split_at-found b'?' page (print_form f fields) h, parse_form)
        (form_loop-print_form (suc (length (print_form f fields))) s f fields v (omega arith))
