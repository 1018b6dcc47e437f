-- ===== src/Dump/Run/Optional.antt =====
-- The elements that a revision of a dump may have or not: those of its parent, its time and its
-- contributor, and those within the contributor.
use citescoop.Prelude.{ℕ, ◌≡◌, refl, ap, ◌∙◌, false, true, Option, none, some, List, [], ◌∷◌}
use citescoop.Prelude.Text.{Text, codes}
use citescoop.Proto.{Revision, Timestamp}
use citescoop.Result.{Error, Result, ok, err, ◌>>=◌, >>=-eq-ok}
use citescoop.StdMap.{or_else}
use citescoop.StdMap.Keys.{number_ord}
use citescoop.Dump.State.{DumpParser, Services}
use citescoop.Dump.Handlers.{Event, start_element, end_element, parse_id}
use citescoop.Dump.Run.{run}
use citescoop.Dump.Run.Field.{concat, element, after, inside, run-step}
use citescoop.Dump.Run.Elements.{
  run-parentid, run-timestamp, run-username, run-contributor_id, start-contributor, end-contributor,
  run-parentid_err,
}

-- A contributor as a dump has it: an anonymous or a hidden one has no name and no id.
pub record ContributorXml : Type 0 where
  pub username : Option (List Text)
  pub id : Option (List Text)

abbrev pub optional_element : Text → Option (List Text) → List Event → List Event
optional_element name none es = es
optional_element name (some pieces) es = element name pieces es

abbrev pub contributor_events : Option ContributorXml → List Event → List Event
contributor_events none es = es
contributor_events (some x) es =
    start_element (codes "contributor")
    ∷ optional_element (codes "username") x.username
        (optional_element (codes "id") x.id (end_element (codes "contributor") ∷ es))

-- The number of the element, where there is one.
abbrev pub read_parent : Option (List Text) → Result (Option ℕ)
read_parent none = ok none
read_parent (some pieces) = parse_id (concat pieces) >>= λ n. ok (some n)

abbrev pub text_of : Option (List Text) → Option Text
text_of none = none
text_of (some pieces) = some (concat pieces)

abbrev pub user_of : Option ContributorXml → Option Text
user_of none = none
user_of (some x) = text_of x.username

abbrev pub time_of : (Text → Timestamp) → Option (List Text) → Option Timestamp
time_of timestamp_from none = none
time_of timestamp_from (some pieces) = some (timestamp_from (concat pieces))

pub or_else-none {ℓ} : {A : Type ℓ} (a : Option A) → or_else a none ≡ a
or_else-none none = refl
or_else-none (some a) = refl

-- The text in the buffer behind an optional element.
abbrev pub left : Option (List Text) → Text → Text
left none t = t
left (some pieces) t = concat pieces

abbrev pub left_by : Option ContributorXml → Text → Text
left_by none t = t
left_by (some x) t = left x.id (left x.username [])

module _ {O : Type 0} (s : Services O) (p : DumpParser O) (t : Text) (r : Revision)
    (es : List Event) where
  pub run-parent :
      (x : Option (List Text)) (parent : Option ℕ)
      → read_parent x ≡ ok parent
      → run s (optional_element (codes "parentid") x es) (inside false (after p t r))
        ≡ run s es (
            inside false (after p (left x t) (record r { parent_id = or_else parent r.parent_id })))
  run-parent none none h = refl
  run-parent none (some n) h = cc
  run-parent (some pieces) parent h =
      let (n, is_n, e) = >>=-eq-ok (parse_id (concat pieces)) (λ n. ok (some n)) h in
      let same : some n ≡ parent = cc in
      run-parentid s pieces (after p t r) es n is_n
      ∙ ap
          (λ parent. run s es (
            inside false
              (after p (concat pieces) (record r { parent_id = or_else parent r.parent_id }))))
          same

  pub run-time :
      (x : Option (List Text))
      → run s (optional_element (codes "timestamp") x es) (inside false (after p t r))
        ≡ run s es (
            inside false (
              after p
                (left x t)
                (record r { timestamp = or_else (time_of s.timestamp_from x) r.timestamp })))
  run-time none = refl
  run-time (some pieces) = run-timestamp s pieces (after p t r) es

  run-user :
      (x : Option (List Text))
      → run s (optional_element (codes "username") x es) (inside true (after p t r))
        ≡ run s es
            (inside true (after p (left x t) (record r { user = or_else (text_of x) r.user })))
  run-user none = refl
  run-user (some pieces) = run-username s pieces (after p t r) es

  run-user_id :
      (x : Option (List Text))
      → run s (optional_element (codes "id") x es) (inside true (after p t r))
        ≡ run s es (inside true (after p (left x t) r))
  run-user_id none = refl
  run-user_id (some pieces) = run-contributor_id s pieces (after p t r) es

module _ {O : Type 0} (s : Services O) (p : DumpParser O) (t : Text) (r : Revision)
    (es : List Event) where
  pub run-contributor :
      (x : Option ContributorXml)
      → run s (contributor_events x es) (inside false (after p t r))
        ≡ run s es
            (inside false (after p (left_by x t) (record r { user = or_else (user_of x) r.user })))
  run-contributor none = refl
  run-contributor (some x) =
      run-step s _ _ _ _ (start-contributor s (after p t r))
      ∙ run-user s p [] r _ x.username
      ∙ run-user_id s p (left x.username [])
          (record r { user = or_else (text_of x.username) r.user }) _ x.id
      ∙ run-step s _ _ _ _ (
          end-contributor s (
            after p (left_by (some x) t) (record r { user = or_else (text_of x.username) r.user })))

  -- The exception of a parent that is no number, with the state where it is thrown.
  pub run-parent_err :
      (x : Option (List Text)) (e : Error)
      → read_parent x ≡ err e
      → (q : DumpParser O) × (run s
            (optional_element (codes "parentid") x es)
            (inside false (after p t r))
          ≡ (q, some e))
  run-parent_err none e h = cc
  run-parent_err (some pieces) e h =
      (_, run-parentid_err s pieces (after p t r) es e (fails (parse_id (concat pieces)) h))
    where
      fails : (m : Result ℕ) → (m >>= λ n. ok (some n)) ≡ err e → m ≡ err e
      fails (ok n) h = cc
      fails (err y) h = cc
