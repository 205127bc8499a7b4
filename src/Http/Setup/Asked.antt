-- ===== src/Http/Setup/Asked.antt =====
-- Requests for a page with the fields of a form behind its name.
use esp8266_toolbox.Base.{
  ℕ, ◌≡◌, ◌≢◌, refl, true, false, List, ◌∷◌, ◌++◌, append_assoc, All, ◌==◌, arith,
}
use esp8266_toolbox.Base.Memory.{text_of-nul}
use esp8266_toolbox.Http.Form.Fields.{Field, IsField, print_form}
use esp8266_toolbox.Http.Process.{HttpClient, state_response}
use esp8266_toolbox.Http.Setup.{ignore_postdata, url_text}

-- A client whose request is parsed, without a body, for the page with these fields.
pub record Asks (c : HttpClient) (page : List ℕ) (f : Field) (fs : List Field) (pad : List ℕ)
    : Type 0 where
  pub answering : c.state ≡ state_response
  pub url : c.url ≡ (page ++ b'?' ∷ print_form f fs) ++ 0 ∷ pad
  pub text : All (λ x. x ≢ 0) (page ++ b'?' ∷ print_form f fs)
  pub page_name : All (λ x. x ≢ b'?') page
  pub well_formed : All IsField (f ∷ fs)

pub ignored : (c : HttpClient) → c.state ≡ state_response → ignore_postdata c ≡ (c, true)
unfolding ignore_postdata
ignored c e = let p : (c.state == 1) ≡ false = ground (arith, e) in rw p refl

pub asked_text :
    (c : HttpClient) (page : List ℕ) (f : Field) (fs : List Field) (pad : List ℕ)
    → Asks c page f fs pad
    → url_text c ≡ page ++ b'?' ∷ print_form f fs
asked_text c page f fs pad v =
    rw (v.url, append_assoc)
      (text_of-nul (page ++ b'?' ∷ print_form f fs) (pad ++ (c.host ++ c.buf)) v.text)
