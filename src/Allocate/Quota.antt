-- ===== src/Allocate/Quota.antt =====
-- What `allocate` (src/ws.cpp) leaves of the entry of an existing workspace, however it ends.
use mathlib.Core.Path.{subst⁻¹}
use hpc_workspace.Base.{
  ◌≡◌, refl, sym, ◌∙◌, ap, true, false, ◌&&◌, Option, none, some, ◌==◌, ◌<◌, List, [], ◌∷◌, arith,
  Bool-cases, Option-cases, inl, inr,
}
use hpc_workspace.Base.Int.{ℤ, pos, negsuc, eqb_ℤ, IsInt, ◌+ℤ◌}
use hpc_workspace.Base.Text.{Text, text_eq, text_eq→eq, contains}
use hpc_workspace.Base.Dict.{Dict}
use hpc_workspace.World.{
  Host, Libs, IsLawful, IsLong, World, DbFile, M, ok, continue, Result-cases, pure, ◌>>=◌,
}
use hpc_workspace.World.After.{
  After, After-continue, After-end, After-then, After-some, After-branch,
}
use hpc_workspace.World.After.Files.{OnFiles}
use hpc_workspace.World.After.Gives.{Gives, Gives-end, Gives-some}
use hpc_workspace.Workspace.{Workspace, exists, expiration_after}
use hpc_workspace.Workspace.Duration.{duration_seconds-IsInt}
use hpc_workspace.Db.{WsDb}
use hpc_workspace.Db.RoundTrip.{IsRanged}
use hpc_workspace.Allocate.{
  Request, Allocated, new_expiration, extend_entry, use_entry, search_in, search_list, allocate,
  entry_user, has_user, create,
}
use hpc_workspace.Allocate
use hpc_workspace.Allocate.Search.{file_in}
use hpc_workspace.Allocate.After.{
  KeepsCreate, After-new_expiration, After-use_entry, After-search_list, After-create,
}
use hpc_workspace.Programs.Runs.Steps.{After-make_directory, After-change_with}
use hpc_workspace.World.Caps.{cap_chown, cap_fowner}
use hpc_workspace.Allocate.Paid.{
  IsWhole, IsPaid, HoldsPaid, Writes-other, open_entry-HoldsPaid, After-use_paid,
}

module _ (L : Libs) (h : Host) (s : Workspace) (r : Request) where
  expiration_after-IsLong :
      (d : ℤ) → h.clock 0 < 9223372034707292160 → IsLong (expiration_after h 0 d)
  unfolding expiration_after ◌+ℤ◌
  expiration_after-IsLong d early = ground (arith, duration_seconds-IsInt d)

  new_expiration-IsLong :
      (fs : Text) (w : World L.File)
      → h.clock 0 < 9223372034707292160
      → Gives IsLong (new_expiration L h s r fs w)
  unfolding new_expiration
  new_expiration-IsLong fs w early = elim (Bool-cases (eqb_ℤ s.duration (pos 0))) [
    | inl unset ↦
        rw (unset, new_expiration) (Gives-end IsLong (negsuc 0) w (omega arith, omega arith))
    | inr set ↦
        rw (set, new_expiration)
          (search (Gives-some IsLong, Gives-end IsLong, expiration_after-IsLong) depth 20)
  ]

  -- The default filesystem is among those that are searched.
  abbrev pub IsListed : Type 0
  IsListed =
      (w v : World L.File) (list : List Text)
      → search_list L h s r w ≡ (ok list, v)
      → contains list s.filesystem ≡ true

  module _ (law : IsLawful L) (mortal : (h.uid == 0) ≡ false) (whole : IsWhole h)
      (early : h.clock 0 < 9223372034707292160) (int : IsInt r.reminder) (e0 : WsDb)
      (p : Text) where
    abbrev K : Dict (DbFile L.File) → Type 0
    K = HoldsPaid L e0 p

    abbrev P : World L.File → Type 0
    P = OnFiles (λ db dirs. K db)

    After-with_expiration :
        (fs : Text) (f : ℤ → M L.File Allocated) (w : World L.File)
        → P w
        → ((x : ℤ) (v : World L.File) → IsLong x → P v → After P (f x v))
        → After P (continue (new_expiration L h s r fs w) f)
    After-with_expiration fs f w k go =
        After-then P _ f (After-new_expiration L h s r P fs w k)
          (λ x v at k'. go x v ((new_expiration-IsLong fs w early).holds x v at) k')

    After-extend_entry :
        (fs : Text) (e : WsDb) (w : World L.File)
        → e.dbfilename ≡ p
        → IsRanged e
        → IsPaid e0 e
        → P w
        → After P (extend_entry L h s r fs e w)
    unfolding extend_entry
    After-extend_entry fs e w named fits paid k =
        search (After-with_expiration, After-use_paid L e0 p h e, After-continue P, After-end P)
          depth 40

    After-use_own : (fs : Text) (w : World L.File) → P w → After P (use_entry L h s r fs p w)
    unfolding use_entry
    After-use_own fs w k =
        let (e, opened, named, fits, paid) =
          open_entry-HoldsPaid L e0 p h s.config.dbuid s.config.dbgid w law k in
        rw (opened, use_entry, continue)
          (After-branch P r.extensionflag _ _ w (After-extend_entry fs e w named fits paid k)
            (After-end P _ w k))

    After-use_any : (fs q : Text) (w : World L.File) → P w → After P (use_entry L h s r fs q w)
    After-use_any fs q w k = elim (Bool-cases (text_eq q p)) [
      | inl same ↦
          subst⁻¹ (λ q'. After P (use_entry L h s r fs q' w)) (text_eq→eq q p same)
            (After-use_own fs w k)
      | inr apart ↦ After-use_entry L h s r P q (Writes-other L e0 p h q apart) fs w k
    ]

    After-search_in :
        (fs : Text) (more : M L.File (Option Allocated)) (w : World L.File)
        → P w
        → ((v : World L.File) → P v → After P (more v))
        → After P (search_in L h s r fs more w)
    unfolding search_in
    After-search_in fs more w k go =
        search (After-some P, After-branch P, After-continue P, After-end P, After-use_any) depth 40

    After-search :
        (list : List Text) (w : World L.File) → P w → After P (Allocate.search L h s r list w)
    unfolding Allocate.search
    After-search [] w k = After-end P _ w k
    After-search (fs ∷ rest) w k =
        After-search_in fs (Allocate.search L h s r rest) w k (After-search rest)

    missing_file : (q : Text) (w : World L.File) → P w → exists q w.db ≡ false → text_eq q p ≡ false
    missing_file q w k absent = elim (Bool-cases (text_eq q p)) [
      | inl same ↦
          let (f, found, content) = k.stored in
          let there : exists q w.db ≡ true = rw (text_eq→eq q p same) (rw (found, exists) refl) in
          absurd (ground arith)
      | inr apart ↦ apart
    ]

    -- Going on with an entry that is found, the search finds something or fails.
    use_entry-some :
        (fs q : Text) (w w' : World L.File)
        → (use_entry L h s r fs q >>= λ a. pure (some a)) w ≡ (ok none, w')
        → ⊥
    use_entry-some fs q w w' e = elim (Result-cases (use_entry L h s r fs q w)) [
      | inl (a, v, ends) ↦ let e' = rw (ends, continue) at e in ground arith
      | inr (x, v, ends) ↦ let e' = rw (ends, continue) at e in ground arith
    ]

    -- A search that finds nothing has looked at the default filesystem, if that is listed.
    search-apart :
        (list : List Text) (w w' : World L.File) (q : Text)
        → P w
        → Allocate.search L h s r list w ≡ (ok none, w')
        → contains list s.filesystem ≡ true
        → file_in L h s r s.filesystem ≡ some q
        → text_eq q p ≡ false
    unfolding Allocate.search search_in contains
    search-apart [] w w' q k e listed file = absurd (ground arith)
    search-apart (fs ∷ rest) w w' q k e listed file = elim (Option-cases (file_in L h s r fs)) [
      | inl unknown ↦
          let e' = rw (unknown, Allocate.search, search_in, continue) at e in absurd (ground arith)
      | inr (qx, known) ↦ elim (Bool-cases (exists qx w.db)) [
        | inl found ↦ absurd (
            use_entry-some fs qx w w'
              (rw (known, found, Allocate.search, search_in, continue) at e))
        | inr absent ↦ elim (Bool-cases (r.extensionflag && has_user L h s r)) [
          | inl refused ↦
              let e' = rw (known, absent, refused, Allocate.search, search_in, continue) at e in
              absurd (ground arith)
          | inr goes ↦ elim (Bool-cases (text_eq fs s.filesystem)) [
            | inl same ↦
                let q≡ : some qx ≡ some q =
                  sym known ∙ (ap (file_in L h s r) (text_eq→eq fs s.filesystem same) ∙ file) in
                missing_file q w k (ground arith)
            | inr other ↦
                search-apart rest w w' q k
                  (rw (known, absent, goes, Allocate.search, search_in, continue) at e)
                  (ground arith) file
          ]
        ]
      ]
    ]

    KeepsCreate-paid :
        ((q : Text) → file_in L h s r s.filesystem ≡ some q → text_eq q p ≡ false)
        → KeepsCreate L h s r P
    KeepsCreate-paid apart = record {
      writes = λ q file. Writes-other L e0 p h q (apart q file);
      makes = λ wsdir w k. After-make_directory L h s K r w k wsdir;
      owns = λ b f wsdir x w k. After-change_with L h s K r w k cap_chown b f wsdir x;
      modes = λ b f wsdir x w k. After-change_with L h s K r w k cap_fowner b f wsdir x;
    }

    pub After-allocate : (w : World L.File) → IsListed → P w → After P (allocate L h s r w)
    unfolding allocate
    After-allocate w listed k = After-then P _ _ (After-search_list L h s r P w k) (λ list v at k'.
        After-then P _ _ (After-search list v k') (λ found u at' k''. elim (Option-cases found) [
          | inl nothing ↦ rw nothing (
              After-create L h s r P
                (KeepsCreate-paid (λ q file.
                  search-apart list v u q k' (rw nothing at at') (listed w v list at) file))
                u k'')
          | inr (a, something) ↦ rw something (After-end P _ u k'')
        ]))

    -- Of a user other than root, before the clock leaves the range of `long`, and where the default
    -- filesystem is among those that are searched: a call of `allocate` with any arguments, however
    -- it ends and in both builds, leaves in the file `p`, which holds an entry, an entry again. It
    -- names the same directory, its extensions are not negative nor more than before, and are fewer
    -- where its expiration is later.
    pub allocate-HoldsPaid :
        (w : World L.File)
        → IsListed
        → HoldsPaid L e0 p w.db
        → HoldsPaid L e0 p (allocate L h s r w).1.db
    allocate-HoldsPaid w listed k = (After-allocate w listed k).holds
