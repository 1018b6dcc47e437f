-- ===== src/OpenAlex/Snapshot/AnyOrder.antt =====
-- The order in which a compiler makes the three calls of ProcessLine, where the ids of authors differ
-- from those of institutions.
use citescoop.Prelude.{
  ◌≡◌, refl, sym, ap, subst, ◌∙◌, Bool, true, false, not, List, [], ◌∷◌, All, arith, Bool-cases,
  inl, inr,
}
use citescoop.Prelude.Text.{Text}
use citescoop.Result.{Result, ok, err}
use citescoop.OpenAlex.{JsonLibraries}
use citescoop.OpenAlex.Works.{member, extract_work}
use citescoop.OpenAlex.Snapshot.{
  Step, continue, ◌>>=◌, return, lift, Line, Snapshot, no_records, add_line, lines_of,
  extract_authors, extract_institutions, process_line, process_lines, process_works_snapshot,
}
use citescoop.OpenAlex.Snapshot.Frame.{SameOn, Untouched, Frames}
use citescoop.OpenAlex.Snapshot.Within.{
  AuthorsWithin, InstitutionsWithin, extract_authors-Frames, extract_institutions-Frames,
}

-- The same ids were seen.
abbrev pub SameSeen : List Text → List Text → Type 0
SameSeen s t = (k : Text) → member k s ≡ member k t

-- Both steps return the same and have seen the same ids, or both throw.
abbrev pub SameOutcome : {A : Type 0} → List Text × Result A → List Text × Result A → Type 0
SameOutcome (s, ok a) (t, ok b) = (a ≡ b) × SameSeen s t
SameOutcome (s, err x) (t, err y) = Unit
SameOutcome (s, ok a) (t, err y) = ⊥
SameOutcome (s, err x) (t, ok b) = ⊥

continue-at :
    {A B : Type 0} (p : List Text × Result A) (f g : A → Step B)
    → ((a : A) → f a p.0 ≡ g a p.0)
    → continue p f ≡ continue p g
continue-at (s, ok a) f g h = h a
continue-at (s, err x) f g h = refl

module _ {A I W R : Type 0} (make : A → I → W → R) where
  -- Three calls, of which the first two go from the left or all three from the right.
  abbrev from_left_end :
      List Text × Result A → List Text × Result I → Result W → List Text × Result R
  from_left_end p q w =
      continue p (λ a _. continue q (λ i s. continue (s, w) (λ z. return (make a i z))))

  abbrev from_right_end :
      List Text → List Text × Result A → List Text × Result I → Result W → List Text × Result R
  from_right_end t p q w =
      continue (t, w) (λ z _. continue q (λ i _. continue p (λ a. return (make a i z))))

  ends :
      (s1 s2 t t1 t2 : List Text) (a : Result A) (i : Result I) (w : Result W)
      → SameSeen s2 t2
      → SameOutcome (from_left_end (s1, a) (s2, i) w) (from_right_end t (t2, a) (t1, i) w)
  ends s1 s2 t t1 t2 (ok a) (ok i) (ok w) h = (refl, h)
  ends s1 s2 t t1 t2 (ok a) (ok i) (err z) h = tt
  ends s1 s2 t t1 t2 (ok a) (err y) (ok w) h = tt
  ends s1 s2 t t1 t2 (ok a) (err y) (err z) h = tt
  ends s1 s2 t t1 t2 (err x) (ok i) (ok w) h = tt
  ends s1 s2 t t1 t2 (err x) (ok i) (err z) h = tt
  ends s1 s2 t t1 t2 (err x) (err y) (ok w) h = tt
  ends s1 s2 t t1 t2 (err x) (err y) (err z) h = tt

module _ (part : Text → Bool) {A I W R : Type 0} (authors : Step A) (institutions : Step I)
    (work : Result W) (make : A → I → W → R) (of_part : Frames part authors)
    (of_rest : Frames (λ k. not (part k)) institutions) (s t : List Text)
    (same : SameSeen s t) where
  -- The ids seen after both calls are the same.
  both_seen :
      (s1 s2 t1 t2 : List Text)
      → SameOn part s1 t2
      → SameOn (λ k. not (part k)) s2 t1
      → Untouched part t1 t2
      → Untouched (λ k. not (part k)) s1 s2
      → SameSeen s2 t2
  both_seen s1 s2 t1 t2 authors_same rest_same right left k = elim (Bool-cases (part k)) [
    | inl within ↦ left k (ap not within) ∙ authors_same k within
    | inr outside ↦ rest_same k (ap not outside) ∙ sym (right k outside)
  ]

  rest_seen : SameOn (λ k. not (part k)) (authors s).0 t
  rest_seen k h = (of_part s s (λ k l. refl)).left k (ground (arith, h)) ∙ same k

  part_seen : SameOn part s (institutions t).0
  part_seen k h = same k ∙ sym ((of_rest t t (λ k l. refl)).left k (ap not h))

  abbrev from_left_run : List Text × Result R
  from_left_run = (authors >>= λ a. institutions >>= λ i. lift work >>= λ z. return (make a i z)) s

  abbrev from_right_run : List Text × Result R
  from_right_run = (lift work >>= λ z. institutions >>= λ i. authors >>= λ a. return (make a i z)) t

  left_run : from_left_run ≡ from_left_end make (authors s) (institutions (authors s).0) work
  left_run = continue-at (authors s) _ _ (λ a. refl)

  right_run :
      from_right_run ≡ from_right_end make t (authors (institutions t).0) (institutions t) work
  right_run = continue-at (t, work) _ _ (λ z. continue-at (institutions t) _ _ (λ i. refl))

  runs-SameOutcome : SameOutcome from_left_run from_right_run
  runs-SameOutcome =
      let first = of_part s (institutions t).0 part_seen in
      let second = of_rest (authors s).0 t rest_seen in
      let seen =
        both_seen (authors s).0 (institutions (authors s).0).0 (institutions t).0
          (authors (institutions t).0).0 first.seen second.seen first.right second.left in
      rw (left_run, right_run)
        (subst
          (λ a.
            SameOutcome (from_left_end make (authors s) (institutions (authors s).0) work)
              (from_right_end make t ((authors (institutions t).0).0, a) (institutions t) work))
          first.result
          (subst
            (λ i. SameOutcome (from_left_end make (authors s) (institutions (authors s).0) work) (
              from_right_end make t ((authors (institutions t).0).0, (authors s).1)
                ((institutions t).0, i) work))
            second.result
            (ends make (authors s).0 (institutions (authors s).0).0 t (institutions t).0
              (authors (institutions t).0).0 (authors s).1 (institutions (authors s).0).1 work
              seen)))

continue-SameOutcome :
    {A B : Type 0} (p q : List Text × Result A) (f g : A → Step B)
    → SameOutcome p q
    → ((a : A) (s t : List Text) → SameSeen s t → SameOutcome (f a s) (g a t))
    → SameOutcome (continue p f) (continue q g)
continue-SameOutcome (s, ok a) (t, ok b) f g h k =
    subst (λ b. SameOutcome (f a s) (g b t)) h.0 (k a s t h.1)
continue-SameOutcome (s, err x) (t, err y) f g h k = tt
continue-SameOutcome (s, ok a) (t, err y) f g h k = absurd h
continue-SameOutcome (s, err x) (t, ok b) f g h k = absurd h

module _ (lib : JsonLibraries) (part : Text → Bool) where
  -- The ids of the authors of the line are of the part, and those of its institutions are not.
  abbrev pub TellsApart : Text → Type 0
  TellsApart line =
      (json : lib.Json)
      → lib.parse line ≡ ok json
      → AuthorsWithin lib part json × InstitutionsWithin lib (λ k. not (part k)) json

  abbrev line_from_left : lib.Json → Step Line
  line_from_left json = extract_authors lib json >>= λ a. extract_institutions lib json >>= λ i.
      lift (extract_work lib json) >>= λ w.
      return (record { authors = a; institutions = i; work = w })

  abbrev line_from_right : lib.Json → Step Line
  line_from_right json = lift (extract_work lib json) >>= λ w.
      extract_institutions lib json >>= λ i.
      extract_authors lib json >>= λ a. return (record { authors = a; institutions = i; work = w })

  parsed-SameOutcome :
      (parsed : Result lib.Json) (s t : List Text)
      → ((json : lib.Json)
          → parsed ≡ ok json
          → AuthorsWithin lib part json × InstitutionsWithin lib (λ k. not (part k)) json)
      → SameSeen s t
      → SameOutcome (continue (s, parsed) line_from_left) (continue (t, parsed) line_from_right)
  parsed-SameOutcome (ok json) s t apart same =
      runs-SameOutcome part (extract_authors lib json) (extract_institutions lib json)
        (extract_work lib json) (λ a i w. record { authors = a; institutions = i; work = w })
        (extract_authors-Frames lib part json (apart json refl).0)
        (extract_institutions-Frames lib (λ k. not (part k)) json (apart json refl).1) s t same
  parsed-SameOutcome (err x) s t apart same = tt

  process_line-SameOutcome :
      (line : Text) (s t : List Text)
      → TellsApart line
      → SameSeen s t
      → SameOutcome (process_line lib true line s) (process_line lib false line t)
  unfolding process_line
  process_line-SameOutcome line s t apart same = parsed-SameOutcome (lib.parse line) s t apart same

  process_lines-SameOutcome :
      (lines : List Text) (snapshot : Snapshot) (s t : List Text)
      → All TellsApart lines
      → SameSeen s t
      → SameOutcome
          (process_lines lib true lines snapshot s)
          (process_lines lib false lines snapshot t)
  unfolding process_lines
  process_lines-SameOutcome [] snapshot s t apart same = (refl, same)
  process_lines-SameOutcome ([] ∷ lines) snapshot s t apart same =
      process_lines-SameOutcome lines snapshot s t apart.1 same
  process_lines-SameOutcome ((c ∷ line) ∷ lines) snapshot s t apart same =
      continue-SameOutcome (process_line lib true (c ∷ line) s)
        (process_line lib false (c ∷ line) t) _ _
        (process_line-SameOutcome (c ∷ line) s t apart.0 same)
        (λ read s' t' h. process_lines-SameOutcome lines (add_line read snapshot) s' t' apart.1 h)

  -- Given a test that holds of the ids of the authors of all lines of the input, and of none of
  -- those of their institutions: whether the compiler makes the three calls of ProcessLine from the
  -- left or from the right, ProcessWorksSnapshot throws in both cases, or it returns the same
  -- authors, institutions and works and has seen the same ids.
  pub process_works_snapshot-SameOutcome :
      (input : Text) (seen : List Text)
      → All TellsApart (lines_of input)
      → SameOutcome
          (process_works_snapshot lib true input seen)
          (process_works_snapshot lib false input seen)
  unfolding process_works_snapshot
  process_works_snapshot-SameOutcome input seen apart =
      process_lines-SameOutcome (lines_of input) no_records seen seen apart (λ k. refl)
