-- ===== src/Csrf/Tests.antt =====
-- Tests of the model of the token, and its theorems at concrete inputs.
use loon_site.Prelude.{
  inl, ℕ, ◌≡◌, ◌≢◌, ◌↔◌, ◌⊎◌, refl, Bool, true, ◌||◌, none, some, [], ◌==◌, nat_eq,
}
use loon_site.Prelude.Bytes.{Bytes, codes}
use loon_site.Prelude.Members.{In}
use loon_site.Csrf.{CsrfRequest, post, other_method, passes, forbidden, is_exempt, csrf}
use loon_site.Csrf.Laws.{
  open_routes, HoldsTo, Brings, NeedsNoToken, csrf_passes_iff, issued_token_passes,
}

abbrev space : ℕ → Bool
space c = c == 32

abbrev visit : CsrfRequest
visit = record { full_path = codes "/"; method = other_method; form_field = []; header = [] }

abbrev save_form : CsrfRequest
save_form = record {
  full_path = codes "/settings";
  method = post;
  form_field = codes " tok ";
  header = [];
}

csrf_passes_iff_example : ((csrf space none true (codes "tok") save_form).verdict ≡ passes) ↔ (
    In save_form.full_path open_routes
    ⊎ ((token : Bytes) × HoldsTo none (codes "tok") token
        × (NeedsNoToken save_form.method ⊎ Brings space token save_form)))
csrf_passes_iff_example = csrf_passes_iff space none true (codes "tok") save_form

foreign_form : (csrf space none true (codes "other") save_form).verdict ≡ forbidden
unfolding csrf loon_site.Prelude.Text.trim_space
foreign_form = refl

agents_are_exempt : is_exempt (codes "/api/agent/poll") ≡ true
unfolding is_exempt
agents_are_exempt = refl

real_token : ◌≢◌ {A = Bytes} (codes "tok") []
real_token same = absurd (cc)

form-Brings : Brings space (codes "tok") save_form
unfolding loon_site.Prelude.Text.trim_space
form-Brings = inl (λ blank. absurd (cc), refl)

issued_token_passes_example :
    let first = csrf space (some (codes "tok")) true [] visit in
    (first.context_token ≡ some (codes "tok"))
    × ((csrf space none true first.session_token save_form).verdict ≡ passes)
unfolding is_exempt
issued_token_passes_example =
    issued_token_passes space (codes "tok") none true visit save_form refl real_token form-Brings
