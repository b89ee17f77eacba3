-- ===== src/Proxy/Passthrough.antt =====
-- `is_hop_by_hop`, `copy_headers` and `passthrough` of src/proxy/passthrough.rs. A header map is the
-- list of its entries, with names in lower case as the `http` crate keeps them; a body is streamed
-- through and is not looked at.
use ement_e2ee.Prelude.{
  ℕ, Bool, ◌||◌, ◌&&◌, not, Option, none, some, List, [], ◌∷◌, ◌++◌, Text, codes, eqb,
  Text-discrete, if◌then◌else◌, elem, retain, ◌≡◌, sym, ◌∙◌, Bool-cases, inl, inr, unwrap_or,
}
use mathlib.Core.List.{append-nil, append_assoc}
use ement_e2ee.Proxy.Error.{ProxyError}

abbrev pub Headers : Type 0
Headers = List (Text × Text)

abbrev pub hop_by_hop : List Text
hop_by_hop =
    codes "connection"
    ∷ codes "proxy-authenticate"
    ∷ codes "proxy-authorization"
    ∷ codes "te"
    ∷ codes "trailer"
    ∷ codes "transfer-encoding"
    ∷ codes "upgrade"
    ∷ []

unfoldable pub is_hop_by_hop : Text → Bool
is_hop_by_hop name =
    elem Text-discrete name hop_by_hop
    || eqb name (codes "keep-alive")
    || eqb name (codes "proxy-connection")

unfoldable pub is_forwarded : Text → Bool
unfolding is_hop_by_hop
is_forwarded name = not (is_hop_by_hop name) && not (eqb name (codes "host"))

-- Each header that is forwarded is appended to those that are there.
unfoldable pub copy_headers : Headers → Headers → Headers
unfolding is_forwarded
copy_headers [] dst = dst
copy_headers ((name, value) ∷ src) dst =
    copy_headers src (if is_forwarded name then dst ++ (name, value) ∷ [] else dst)

pub record Forwarded (Body : Type 0) : Type 0 where
  pub method : Text
  pub path_and_query : Text
  pub headers : Headers
  pub body : Body

pub record Relayed (Body : Type 0) : Type 0 where
  pub status : ℕ
  pub headers : Headers
  pub body : Body

pub data Passed (Body : Type 0) : Type 0 where
  relayed : Relayed Body → Passed Body
  failed : ProxyError → Passed Body

module _ {Body : Type 0} (valid_method : Text → Bool)
    (send : Forwarded Body → Option (Relayed Body)) where
  unfoldable pub relay : Option (Relayed Body) → Passed Body
  unfolding copy_headers
  relay none = failed ProxyError.upstream
  relay (some answer) = relayed (record answer { headers = copy_headers answer.headers [] })

  -- A request without a path goes to `/`.
  unfoldable pub passthrough : Text → Option Text → Headers → Body → Passed Body
  unfolding relay
  passthrough method path_and_query headers body =
      if valid_method method
      then relay (
          send (record {
            method = method;
            path_and_query = unwrap_or path_and_query (codes "/");
            headers = copy_headers headers [];
            body = body;
          }))
      else failed ProxyError.bad_request

copy_headers-append :
    (src dst : Headers) → copy_headers src dst ≡ dst ++ retain (λ h. is_forwarded h.0) src
unfolding copy_headers
copy_headers-append [] dst = sym (append-nil dst)
copy_headers-append ((name, value) ∷ src) dst = elim (Bool-cases (is_forwarded name)) [
  | inl e ↦
      rw (retain, e)
        (copy_headers-append src (dst ++ (name, value) ∷ [])
          ∙ append_assoc dst ((name, value) ∷ []) (retain (λ h. is_forwarded h.0) src))
  | inr e ↦ rw (retain, e) (copy_headers-append src dst)
]

-- What goes through, in either direction, are the headers but `host` and those of one hop, each as
-- often as it is there, in their order and with their values.
pub copy_headers_lem : (src : Headers) → copy_headers src [] ≡ retain (λ h. is_forwarded h.0) src
copy_headers_lem src = copy_headers-append src []
