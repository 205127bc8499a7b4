-- ===== src/Http/Setup/Forms.antt =====
-- The two pages for a form that a client sends.
use esp8266_toolbox.Base.{ℕ, ◌≤◌, ◌<◌, ◌≡◌, refl, ◌∙◌, ap, List, length}
use esp8266_toolbox.Http.Form.{overflow, parse_form}
use esp8266_toolbox.Http.Form.Fields.{Field, parse_form-print_form, set_all}
use esp8266_toolbox.Http.Process.{HttpClient}
use esp8266_toolbox.Http.Setup.{
  bad_request, from_key, http_url_smtp_setup, set_smtp, smtp_page, SmtpSettings, url_text,
}
use esp8266_toolbox.Http.Setup.Account.{Account, field, fields, set_from_lem, set_to_long}
use esp8266_toolbox.Http.Setup.Asked.{asked_text, Asks, ignored}

-- Where the second address is too long, the page is refused, but the first one of the same form stays
-- in force.
pub http_url_smtp_setup_partial :
    (s : SmtpSettings) (c : HttpClient) (a sent : Account) (page pad : List ℕ)
    → length a.from < 128
    → 128 ≤ length a.to
    → Asks c page (field from_key a.from sent.from) (fields a sent) pad
    → http_url_smtp_setup c s ≡ (bad_request, record s { from = a.from })
unfolding http_url_smtp_setup smtp_page set_all
http_url_smtp_setup_partial s c a sent page pad short long v =
    let first : Field = field from_key a.from sent.from in
    let read : parse_form set_smtp s (url_text c) ≡ overflow (record s { from = a.from }) =
      ap (parse_form set_smtp s) (asked_text c page first (fields a sent) pad v)
      ∙ parse_form-print_form set_smtp s page first (fields a sent) v.page_name v.well_formed
      ∙ rw (set_from_lem s a.from short, set_all) (rw (set_to_long _ a.to long, set_all) refl) in
    rw (ignored c v.answering) (rw (read, smtp_page) refl)
