-- ===== src/Http/Logs/Visits.antt =====
-- Visits of the pages that raise and lower the level of a subsystem.
use esp8266_toolbox.Base.{
  ℕ, ◌+◌, ◌≡◌, ◌≢◌, refl, ◌∙◌, ap, false, inl, inr, some, List, [], ◌∷◌, ◌++◌, append_assoc, All,
  ◌==◌, ◌||◌, arith,
}
use esp8266_toolbox.Base.Memory.{text_of-nul}
use esp8266_toolbox.Http.Logs.{
  change_level, changed, contains, crypto_name, driver_name, http_name, http_url_logs_lower,
  http_url_logs_raise, level_page, LogLevels, main_name, ota_name, smtp_name,
}
use esp8266_toolbox.Http.Process.{HttpClient, state_response}
use esp8266_toolbox.Http.Setup.{is_key, url_text}
use esp8266_toolbox.Http.Setup.Asked.{ignored}
use esp8266_toolbox.Log.{log_lower, log_raise}
use esp8266_toolbox.Log.Levels.{IsLevel, log_raise-log_lower}

pub data Subsystem : Type 0 where
  crypto driver http main ota smtp : Subsystem

abbrev pub name_of : Subsystem → List ℕ
name_of crypto = crypto_name
name_of driver = driver_name
name_of http = http_name
name_of main = main_name
name_of ota = ota_name
name_of smtp = smtp_name

abbrev pub level_of : Subsystem → LogLevels → ℕ
level_of crypto l = l.crypto
level_of driver l = l.driver
level_of http l = l.http
level_of main l = l.main
level_of ota l = l.ota
level_of smtp l = l.smtp

abbrev pub with_level : Subsystem → ℕ → LogLevels → LogLevels
with_level crypto n l = record l { crypto = n }
with_level driver n l = record l { driver = n }
with_level http n l = record l { http = n }
with_level main n l = record l { main = n }
with_level ota n l = record l { ota = n }
with_level smtp n l = record l { smtp = n }

-- A word that starts with a question mark is found only from the first one on.
contains_mark :
    (page word name : List ℕ)
    → All (λ x. x ≢ b'?') page
    → contains (b'?' ∷ word) (page ++ b'?' ∷ name)
      ≡ (is_key word name || contains (b'?' ∷ word) name)
unfolding contains is_key
contains_mark [] word name h = refl
contains_mark (x ∷ page) word name h =
    let p : (b'?' == x) ≡ false = ground (arith, h.0) in rw p (contains_mark page word name h.1)

change_level_lem :
    (change : ℕ → ℕ) (page : List ℕ) (σ : Subsystem) (l : LogLevels)
    → All (λ x. x ≢ b'?') page
    → change_level change (page ++ b'?' ∷ name_of σ) l
      ≡ some (with_level σ (change (level_of σ l)) l)
unfolding change_level contains is_key
change_level_lem change page crypto l h =
    rw (contains_mark page crypto_name crypto_name h, change_level) refl
change_level_lem change page driver l h =
    rw
      (
        contains_mark page crypto_name driver_name h,
        contains_mark page driver_name driver_name h,
        change_level,
      )
      refl
change_level_lem change page http l h =
    rw
      (
        contains_mark page crypto_name http_name h,
        contains_mark page driver_name http_name h,
        contains_mark page http_name http_name h,
        change_level,
      )
      refl
change_level_lem change page main l h =
    rw
      (
        contains_mark page crypto_name main_name h,
        contains_mark page driver_name main_name h,
        contains_mark page http_name main_name h,
        contains_mark page main_name main_name h,
        change_level,
      )
      refl
change_level_lem change page ota l h =
    rw
      (
        contains_mark page crypto_name ota_name h,
        contains_mark page driver_name ota_name h,
        contains_mark page http_name ota_name h,
        contains_mark page main_name ota_name h,
        contains_mark page ota_name ota_name h,
        change_level,
      )
      refl
change_level_lem change page smtp l h =
    rw
      (
        contains_mark page crypto_name smtp_name h,
        contains_mark page driver_name smtp_name h,
        contains_mark page http_name smtp_name h,
        contains_mark page main_name smtp_name h,
        contains_mark page ota_name smtp_name h,
        contains_mark page smtp_name smtp_name h,
        change_level,
      )
      refl

-- A client whose request is parsed, without a body, for a page with the name of the subsystem.
pub record Visits (c : HttpClient) (page : List ℕ) (σ : Subsystem) (pad : List ℕ) : Type 0 where
  pub answering : c.state ≡ state_response
  pub url : c.url ≡ (page ++ b'?' ∷ name_of σ) ++ 0 ∷ pad
  pub text : All (λ x. x ≢ 0) (page ++ b'?' ∷ name_of σ)
  pub page_name : All (λ x. x ≢ b'?') page

visited_level :
    (change : ℕ → ℕ) (c : HttpClient) (page : List ℕ) (σ : Subsystem) (pad : List ℕ) (l : LogLevels)
    → Visits c page σ pad
    → change_level change (url_text c) l ≡ some (with_level σ (change (level_of σ l)) l)
visited_level change c page σ pad l v =
    let text : url_text c ≡ page ++ b'?' ∷ name_of σ =
      rw (v.url, append_assoc)
        (text_of-nul (page ++ b'?' ∷ name_of σ) (pad ++ (c.host ++ c.buf)) v.text) in
    ap (λ t. change_level change t l) text ∙ change_level_lem change page σ l v.page_name

raise_visited :
    (c : HttpClient) (page : List ℕ) (σ : Subsystem) (pad : List ℕ) (l : LogLevels)
    → Visits c page σ pad
    → http_url_logs_raise c l ≡ (changed, with_level σ (log_raise (level_of σ l)) l)
unfolding http_url_logs_raise level_page
raise_visited c page σ pad l v =
    rw (ignored c v.answering) (rw (visited_level log_raise c page σ pad l v, level_page) refl)

lower_visited :
    (c : HttpClient) (page : List ℕ) (σ : Subsystem) (pad : List ℕ) (l : LogLevels)
    → Visits c page σ pad
    → http_url_logs_lower c l ≡ (changed, with_level σ (log_lower (level_of σ l)) l)
unfolding http_url_logs_lower level_page
lower_visited c page σ pad l v =
    rw (ignored c v.answering) (rw (visited_level log_lower c page σ pad l v, level_page) refl)

put_back :
    (σ : Subsystem) (l : LogLevels) (n m : ℕ)
    → m ≡ level_of σ l
    → (level_of σ (with_level σ n l) ≡ n) × (with_level σ m (with_level σ n l) ≡ l)
put_back crypto l n m e = (refl, rw e refl)
put_back driver l n m e = (refl, rw e refl)
put_back http l n m e = (refl, rw e refl)
put_back main l n m e = (refl, rw e refl)
put_back ota l n m e = (refl, rw e refl)
put_back smtp l n m e = (refl, rw e refl)

-- A visit of the page that raises levels, by the name of one of the six subsystems, whose level is one
-- of the five but the highest, makes this level the next higher one and keeps the others. A visit of
-- the page that lowers levels, by the same name, then puts all levels back.
pub logs_raise-logs_lower :
    (c c' : HttpClient) (page page' : List ℕ) (σ : Subsystem) (pad pad' : List ℕ) (l : LogLevels)
    → IsLevel (level_of σ l)
    → level_of σ l ≢ 50
    → Visits c page σ pad
    → Visits c' page' σ pad'
    → (http_url_logs_raise c l ≡ (changed, with_level σ (level_of σ l + 10) l))
      × (http_url_logs_lower c' (http_url_logs_raise c l).1 ≡ (changed, l))
logs_raise-logs_lower c c' page page' σ pad pad' l h ne v v' =
    let n = log_raise (level_of σ l) in
    let (up, down) : (n ≡ level_of σ l + 10) × (log_lower n ≡ level_of σ l) =
      elim ((log_raise-log_lower (level_of σ l) h).2) [ inl top ↦ absurd (ne top.0) | inr q ↦ q ] in
    let raised = raise_visited c page σ pad l v in
    let back = put_back σ l n (log_lower n) down in
    (
      raised ∙ ap (λ k. (changed, with_level σ k l)) up,
      ap (λ r. http_url_logs_lower c' r.1) raised
          ∙ lower_visited c' page' σ pad' (with_level σ n l) v'
          ∙ ap (λ k. (changed, with_level σ (log_lower k) (with_level σ n l))) back.0
          ∙ ap (λ r. (changed, r)) back.1,
    )
