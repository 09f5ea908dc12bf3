-- ===== src/Registry.antt =====
-- endpoints_t of endpoint_manager_impl.h, and what find, create and remove do with it.
pub mod Laws
use mathlib.Core.Bool.{cond}
use endpoint.Base.{
  ℕ, Bool, true, false, ◌&&◌, Option, none, some, List, [], Text, if◌then◌else◌, ℕ_discrete,
}
use endpoint.Base.Maps.{is_empty, find, assign, erase}

unfoldable pub text_discrete : Discrete Text
text_discrete = hlevel ℕ_discrete

unfoldable pub bool_discrete : Discrete Bool
bool_discrete = hlevel

-- std::map<bool, ptr>, std::map<uint16_t, …>, std::map<std::string, …>.
abbrev pub ByKind : Type 0 → Type 0
ByKind Ptr = List (Bool × Ptr)

abbrev pub ByPort : Type 0 → Type 0
ByPort Ptr = List (ℕ × ByKind Ptr)

abbrev pub Registry : Type 0 → Type 0
Registry Ptr = List (Text × ByPort Ptr)

-- map[key], which makes an empty entry where there is none.
abbrev pub or_empty : {A : Type 0} → Option (List A) → List A
or_empty none = []
or_empty (some m) = m

module _ {Ptr : Type 0} where
  unfoldable pub find_endpoint : Text → ℕ → Bool → Registry Ptr → Option Ptr
  find_endpoint ip port reliable r = elim (find text_discrete ip r) [
    | none ↦ none
    | some ports ↦ elim (find ℕ_discrete port ports) [
      | none ↦ none
      | some kinds ↦ find bool_discrete reliable kinds
    ]
  ]

  -- endpoints[ip][port][reliable] = ptr
  unfoldable pub register : Text → ℕ → Bool → Ptr → Registry Ptr → Registry Ptr
  register ip port reliable ptr r =
      let ports = or_empty (find text_discrete ip r) in
      let kinds = or_empty (find ℕ_discrete port ports) in
      assign text_discrete ip
        (assign ℕ_discrete port (assign bool_discrete reliable ptr kinds) ports) r

  -- The erasures at the end of a remove, once the entry is known to be there.
  unfoldable pub unregister :
      Text → ℕ → Bool → ByPort Ptr → ByKind Ptr → Registry Ptr → Registry Ptr
  unregister ip port reliable ports kinds r =
      let kinds' = erase bool_discrete reliable kinds in
      let ports' =
        if is_empty kinds'
        then erase ℕ_discrete port ports
        else assign ℕ_discrete port kinds' ports in
      if is_empty ports' then erase text_discrete ip r else assign text_discrete ip ports' r

  -- `unused` is the test of the endpoint's use count.
  unfoldable pub remove_endpoint :
      (Ptr → Bool) → Text → ℕ → Bool → Registry Ptr → Bool × Registry Ptr
  remove_endpoint unused ip port reliable r = elim (find text_discrete ip r) [
    | none ↦ (false, r)
    | some ports ↦ elim (find ℕ_discrete port ports) [
      | none ↦ (false, r)
      | some kinds ↦ elim (find bool_discrete reliable kinds) [
        | none ↦ (false, r)
        | some ptr ↦
            if unused ptr then (true, unregister ip port reliable ports kinds r) else (false, r)
      ]
    ]
  ]
