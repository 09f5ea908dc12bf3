-- ===== src/Registry/Laws.antt =====
-- The nested maps behave as one map from (ip, port, reliable), and no inner map is left empty.
use mathlib.Core.Logic.{ite}
use endpoint.Base.{
  ℕ, ◌≡◌, Bool, some, Text, ℕ_discrete, arith, none, Option, false, All, Option-cases, Bool-cases,
  if◌then◌else◌, inl, inr,
}
use endpoint.Base.Maps.{
  find, assign, find-assign, find-nil, is_empty, erase, find-erase, is_empty-find, All-assign,
  is_empty-assign, All-find, All-erase,
}
use endpoint.Registry.{
  text_discrete, bool_discrete, ByKind, Registry, or_empty, find_endpoint, register, unregister,
  ByPort, remove_endpoint,
}

-- `x` at the key of a registration, and `y` at every other.
abbrev pub at_key : {A : Type 0} → Text → ℕ → Bool → Text → ℕ → Bool → A → A → A
at_key ip port reliable ip' port' reliable' x y =
    ite (text_discrete ip ip')
      (ite (ℕ_discrete port port') (ite (bool_discrete reliable reliable') x y) y) y

module _ {Ptr : Type 0} where
  -- After a registration the key finds the new endpoint, and every other key what it found before.
  pub find_endpoint-register :
      (ip ip' : Text) (port port' : ℕ) (reliable reliable' : Bool) (ptr : Ptr) (r : Registry Ptr)
      → find_endpoint ip' port' reliable' (register ip port reliable ptr r)
        ≡ at_key ip port reliable ip' port' reliable'
            (some ptr)
            (find_endpoint ip' port' reliable' r)
  unfolding find_endpoint register
  find_endpoint-register ip ip' port port' reliable reliable' ptr r =
      let ports = or_empty (find text_discrete ip r) in
      let kinds = or_empty (find ℕ_discrete port ports) in
      let kinds' = assign bool_discrete reliable ptr kinds in
      ground (
        arith,
        find-assign text_discrete ip ip' (assign ℕ_discrete port kinds' ports) r,
        find-assign ℕ_discrete port port' kinds' ports,
        find-assign bool_discrete reliable reliable' ptr kinds,
        find-nil {V = ByKind Ptr} ℕ_discrete port',
        find-nil {V = Ptr} bool_discrete reliable',
      )

  -- What the key finds in a map of kinds, of which an emptied one is dropped.
  find_endpoint-unregister :
      (ip ip' : Text) (port port' : ℕ) (reliable reliable' : Bool) (ports : ByPort Ptr)
      (kinds : ByKind Ptr) (r : Registry Ptr)
      → find text_discrete ip r ≡ some ports
      → find ℕ_discrete port ports ≡ some kinds
      → find_endpoint ip' port' reliable' (unregister ip port reliable ports kinds r)
        ≡ at_key ip port reliable ip' port' reliable' none (find_endpoint ip' port' reliable' r)
  unfolding find_endpoint unregister
  find_endpoint-unregister ip ip' port port' reliable reliable' ports kinds r at_ip at_port =
      let kinds' = erase bool_discrete reliable kinds in
      let ports' = assign ℕ_discrete port kinds' ports in
      let ports'' = erase ℕ_discrete port ports in
      ground (
        arith,
        find-erase bool_discrete reliable reliable' kinds,
        is_empty-find bool_discrete reliable' kinds',
        find-assign ℕ_discrete port port' kinds' ports,
        find-erase ℕ_discrete port port' ports,
        is_empty-find ℕ_discrete port' ports',
        is_empty-find ℕ_discrete port' ports'',
        find-assign text_discrete ip ip' ports' r,
        find-assign text_discrete ip ip' ports'' r,
        find-erase text_discrete ip ip' r,
      )

  abbrev pub is_removable : (Ptr → Bool) → Option Ptr → Bool
  is_removable unused none = false
  is_removable unused (some ptr) = unused ptr

  -- A remove reports true exactly where the key has an endpoint that is not in use. Then that key
  -- finds nothing and every other key what it found; else the whole registry is as it was.
  pub find_endpoint-remove_endpoint :
      (unused : Ptr → Bool) (ip ip' : Text) (port port' : ℕ) (reliable reliable' : Bool)
      (r : Registry Ptr)
      → let done = is_removable unused (find_endpoint ip port reliable r) in
        let (said, r') = remove_endpoint unused ip port reliable r in
        (said ≡ done)
        × (find_endpoint ip' port' reliable' r' ≡ (
            if done
            then at_key ip port reliable ip' port' reliable' none
                (find_endpoint ip' port' reliable' r)
            else find_endpoint ip' port' reliable' r))
  unfolding remove_endpoint find_endpoint
  find_endpoint-remove_endpoint unused ip ip' port port' reliable reliable' r =
      elim (Option-cases (find text_discrete ip r)) [
        | inl e ↦ ground arith
        | inr (ports, e) ↦ elim (Option-cases (find ℕ_discrete port ports)) [
          | inl e' ↦ ground arith
          | inr (kinds, e') ↦ ground (
            arith,
            find_endpoint-unregister ip ip' port port' reliable reliable' ports kinds r e e',
          )
        ]
      ]

  -- No inner map is empty.
  abbrev pub HasKinds : ByKind Ptr → Type 0
  HasKinds kinds = is_empty kinds ≡ false

  abbrev pub IsTidyPorts : ByPort Ptr → Type 0
  IsTidyPorts ports = (is_empty ports ≡ false) × All (λ entry. HasKinds entry.1) ports

  abbrev pub IsTidy : Registry Ptr → Type 0
  IsTidy r = All (λ entry. IsTidyPorts entry.1) r

  or_empty-HasKinds :
      (ip : Text) (r : Registry Ptr)
      → IsTidy r
      → All (λ entry. HasKinds entry.1) (or_empty (find text_discrete ip r))
  or_empty-HasKinds ip r h = elim (Option-cases (find text_discrete ip r)) [
    | inl e ↦ rw e tt
    | inr (ports, e) ↦ rw e (All-find text_discrete IsTidyPorts ip r e h).1
  ]

  -- A registration leaves no empty map behind, if there was none.
  pub register-IsTidy :
      (ip : Text) (port : ℕ) (reliable : Bool) (ptr : Ptr) (r : Registry Ptr)
      → IsTidy r
      → IsTidy (register ip port reliable ptr r)
  unfolding register
  register-IsTidy ip port reliable ptr r h =
      let ports = or_empty (find text_discrete ip r) in
      let kinds = or_empty (find ℕ_discrete port ports) in
      let kinds' = assign bool_discrete reliable ptr kinds in
      All-assign text_discrete IsTidyPorts ip _ r
        (
          is_empty-assign ℕ_discrete port kinds' ports,
          All-assign ℕ_discrete HasKinds port kinds' ports
              (is_empty-assign bool_discrete reliable ptr kinds) (or_empty-HasKinds ip r h),
        )
        h

  unregister-IsTidy :
      (ip : Text) (port : ℕ) (reliable : Bool) (ports : ByPort Ptr) (kinds : ByKind Ptr)
      (r : Registry Ptr)
      → IsTidyPorts ports
      → IsTidy r
      → IsTidy (unregister ip port reliable ports kinds r)
  unfolding unregister
  unregister-IsTidy ip port reliable ports kinds r p h =
      elim (Bool-cases (is_empty (erase bool_discrete reliable kinds))) [
        | inr more ↦
            let still =
              is_empty-assign ℕ_discrete port (erase bool_discrete reliable kinds) ports in
            rw (unregister, more, still)
              (All-assign text_discrete IsTidyPorts ip _ r
                (still, All-assign ℕ_discrete HasKinds port _ ports more p.1) h)
        | inl last ↦ elim (Bool-cases (is_empty (erase ℕ_discrete port ports))) [
          | inl none_left ↦
              rw (unregister, last, none_left) (All-erase text_discrete IsTidyPorts ip r h)
          | inr others ↦
              rw (unregister, last, others)
                (All-assign text_discrete IsTidyPorts ip _ r
                  (others, All-erase ℕ_discrete HasKinds port ports p.1) h)
        ]
      ]

  -- A remove leaves no empty map behind, if there was none.
  pub remove_endpoint-IsTidy :
      (unused : Ptr → Bool) (ip : Text) (port : ℕ) (reliable : Bool) (r : Registry Ptr)
      → IsTidy r
      → IsTidy (remove_endpoint unused ip port reliable r).1
  unfolding remove_endpoint
  remove_endpoint-IsTidy unused ip port reliable r h =
      elim (Option-cases (find text_discrete ip r)) [
        | inl e ↦ rw (remove_endpoint, e) h
        | inr (ports, e) ↦ elim (Option-cases (find ℕ_discrete port ports)) [
          | inl e' ↦ rw (remove_endpoint, e, e') h
          | inr (kinds, e') ↦ elim (Option-cases (find bool_discrete reliable kinds)) [
            | inl e'' ↦ rw (remove_endpoint, e, e', e'') h
            | inr (ptr, e'') ↦ elim (Bool-cases (unused ptr)) [
              | inr used ↦ rw (remove_endpoint, e, e', e'', used) h
              | inl free ↦
                  rw (remove_endpoint, e, e', e'', free)
                    (unregister-IsTidy ip port reliable ports kinds r
                      (All-find text_discrete IsTidyPorts ip r e h) h)
            ]
          ]
        ]
      ]
