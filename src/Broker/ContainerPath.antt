-- ===== src/Broker/ContainerPath.antt =====
-- The container path that `evaluateContainerPath` of nfsbroker/nfsbroker.go gives by default.
use Prim.Native.String.{String, ◌++◌ as ◌<>◌}
use text.Mathlib.TextLemmas.{nil-append, append_assoc}
use native.Mathlib.Decide.{ℕ_discrete}
use nfsbroker.Base.{◌≡◌, sym, refl, ◌∙◌, ap, false, none, [], ◌∷◌, ◌==◌, string_dec}
use nfsbroker.Base.Text.{split, join, has_char}
use nfsbroker.Base.Text.Laws.{split-join}
use nfsbroker.Base.FilePath.{enter, clean_elements, clean, join_path}
use nfsbroker.Base.Dict.{lookup}
use nfsbroker.Api.{Params, ok}
use nfsbroker.Broker.Volume.{default_container_path, evaluate_container_path}

-- An identifier that names one element of a path.
pub record IsElement (id : String) : Type 0 where
  pub has_no_slash : has_char b'/' id ≡ false
  pub not_empty : (id == "") ≡ false
  pub not_dot : (id == ".") ≡ false
  pub not_dots : (id == "..") ≡ false

rooted :
    (id : String) → "/" <> join "/" ("var" ∷ "vcap" ∷ "data" ∷ id ∷ []) ≡ "/var/vcap/data/" <> id
unfolding join
rooted id =
    sym (append_assoc "/" "var" _)
    ∙ sym (append_assoc "/var" "/" _)
    ∙ sym (append_assoc "/var/" "vcap" _)
    ∙ sym (append_assoc "/var/vcap" "/" _)
    ∙ sym (append_assoc "/var/vcap/" "data" _)
    ∙ sym (append_assoc "/var/vcap/data" "/" id)

split_default :
    (id : String)
    → IsElement id
    → split b'/' (default_container_path <> ("/" <> id)) ≡ "" ∷ "var" ∷ "vcap" ∷ "data" ∷ id ∷ []
unfolding has_char ℕ_discrete join
split_default id w =
    ap (split b'/') (
      sym (append_assoc default_container_path "/" id)
      ∙ sym (rooted id)
      ∙ sym (nil-append ("/" <> join "/" ("var" ∷ "vcap" ∷ "data" ∷ id ∷ []))))
    ∙ split-join "/" "" ("var" ∷ "vcap" ∷ "data" ∷ id ∷ [])
        (refl, (refl, (refl, (refl, (w.has_no_slash, tt)))))

elements_default :
    (id : String)
    → IsElement id
    → clean_elements ("" ∷ "var" ∷ "vcap" ∷ "data" ∷ id ∷ []) [] ≡ id ∷ "data" ∷ "vcap" ∷ "var" ∷ []
unfolding clean_elements enter string_dec
elements_default id w = rw (w.not_empty, w.not_dot, w.not_dots) refl

clean_default :
    (id : String)
    → IsElement id
    → clean (default_container_path <> ("/" <> id)) ≡ "/var/vcap/data/" <> id
unfolding clean join
clean_default id w = rw (split_default id w) (rw (elements_default id w) (rooted id))

-- If a request names no `mount`, the container path is the default directory and the identifier of
-- the instance, if that is not empty, has no slash and is neither `.` nor `..`.
evaluate_container_path-default :
    (parameters : Params) (id : String)
    → lookup "mount" parameters ≡ none
    → IsElement id
    → evaluate_container_path parameters id ≡ ok ("/var/vcap/data/" <> id)
unfolding evaluate_container_path join_path
evaluate_container_path-default parameters id none_named w =
    rw none_named (rw w.not_empty (ap ok (clean_default id w)))
