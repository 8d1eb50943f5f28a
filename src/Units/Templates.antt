-- ===== src/Units/Templates.antt =====
-- Templates, their instances, and back (src/units/service.rs).
use Prim.Native.Char.{Char, code}
use Prim.Native.String.{String, [] as empty, ◌∷◌ as front, ◌++◌ as append}
use Prim.Native.String.append.{nil, cons}
use sysd.Prelude.{◌≡◌, refl, ap, ◌∙◌, true, false, none, some, ◌==◌, string_eq, nat_eq, arith}
use sysd.Text.{begins_with, rsplit_once, has_text, starts_with, strip_text}
use sysd.Text.Laws.{any_char, is_char, split_once-append}
use sysd.Units.Names.{
  extract_instance, get_template_name, is_bare_template, replace_instance, instantiate_template,
}

rsplit_once_lem :
    (c : Char) (s : String) → any_char (is_char (code c)) s ≡ false → rsplit_once (code c) s ≡ none
unfolding any_char rsplit_once
rsplit_once_lem c empty h = refl
rsplit_once_lem c (front d s) h = rw (rsplit_once_lem c s (ground arith)) ground arith

rsplit_once-append :
    (c : Char) (s t : String)
    → any_char (is_char (code c)) t ≡ false
    → rsplit_once (code c) (append s (front c t)) ≡ some (s, t)
unfolding rsplit_once
rsplit_once-append c empty t h = rw (nil, rsplit_once, rsplit_once_lem c t h) ground arith
rsplit_once-append c (front d s) t h = rw (cons, rsplit_once, rsplit_once-append c s t h) refl

replace_instance_lem : (i s : String) → any_char (is_char b'@') s ≡ false → replace_instance i s ≡ s
unfolding any_char replace_instance
replace_instance_lem i empty h = refl
replace_instance_lem i (front c s) h = rw (replace_instance_lem i s (ground arith)) ground arith

replace_instance-append :
    (i p t : String)
    → any_char (is_char b'@') p ≡ false
    → replace_instance i (append p t) ≡ append p (replace_instance i t)
unfolding any_char replace_instance
replace_instance-append i empty t h = rw nil (rw nil refl)
replace_instance-append i (front c p) t h =
    rw (cons, replace_instance, replace_instance-append i p t (ground arith)) (rw cons ground arith)

filled_end :
    (i s : String)
    → any_char (is_char b'@') s ≡ false
    → replace_instance i (front "@" (front "." s)) ≡ front "@" (append i (front "." s))
unfolding replace_instance begins_with
filled_end i s h = rw (replace_instance_lem i s h) refl

is_bare_template-append :
    (p s : String) → is_bare_template (append p (front "@" (front "." s))) ≡ true
unfolding is_bare_template has_text starts_with strip_text
is_bare_template-append empty s = rw nil refl
is_bare_template-append (front c p) s =
    rw (cons, has_text, is_bare_template-append p s) ground arith

-- The name of a template, `prefix@.suffix`.
abbrev pub template_name : String → String → String
template_name prefix suffix = append prefix (front "@" (front "." suffix))

-- The name of an instance, `prefix@instance.suffix`.
abbrev pub instance_of : String → String → String → String
instance_of prefix i suffix = append prefix (front "@" (append i (front "." suffix)))

-- With a prefix and a suffix that hold no `@`, a suffix that holds no `.`, and an instance that is
-- not empty: the template makes the instance's name, and that name gives both of them back.
pub instantiate_template_lem :
    (prefix i suffix : String)
    → any_char (is_char b'@') prefix ≡ false
    → any_char (is_char b'@') suffix ≡ false
    → any_char (is_char b'.') suffix ≡ false
    → (i == "") ≡ false
    → (instantiate_template (template_name prefix suffix) i ≡ some (instance_of prefix i suffix))
      × (extract_instance (instance_of prefix i suffix) ≡ some i)
      × (get_template_name (instance_of prefix i suffix) ≡ some (template_name prefix suffix))
unfolding instantiate_template extract_instance get_template_name
instantiate_template_lem prefix i suffix p s d e = (
  rw (is_bare_template-append prefix suffix) (ap some filled),
  rw
      (
        split_once-append prefix "@" (append i (front "." suffix)) p,
        rsplit_once-append "." i suffix d,
        e,
      )
      refl,
  rw
      (
        split_once-append prefix "@" (append i (front "." suffix)) p,
        rsplit_once-append "." i suffix d,
      )
      refl,
)
  where
    filled :
        replace_instance i (append prefix (front "@" (front "." suffix)))
        ≡ append prefix (front "@" (append i (front "." suffix)))
    filled =
        replace_instance-append i prefix (front "@" (front "." suffix)) p
        ∙ ap (append prefix) (filled_end i suffix s)
