-- ===== src/Api/RateLimit/Local.antt =====
-- The OrderedDict of buckets of api/middleware/ratelimit.py keeps the promise while it has room.
use eu_rag.Base.{
  Bool-cases, inl, inr, sym, ℕ, ◌+◌, ◌≤◌, ◌<◌, String, Bool, true, false, ◌≡◌, refl, ap, ◌∙◌, ◌==◌,
  Option, none, some, List, [], ◌∷◌, ◌++◌, if◌then◌else◌, fun_ext, arith, eq_iff, length,
  length-append, is_some,
}
use eu_rag.Base.Dict.{get, remove, get-remove}
use eu_rag.Api.RateLimit.{
  Arith, rate, capacity, least, Limits, full, refill, Bucket, Buckets, Verdict, spend, script,
  max_buckets, make_room, touched, others, allow_local,
}
use eu_rag.Api.RateLimit.Shared.{Asking, set_bucket, run}

module _ {V : Type 0} where
  get-append_last :
      (j k : String) (v : V) (d : List (String × V))
      → get j (d ++ (k, v) ∷ [])
        ≡ (if is_some (get j d) then get j d else if k == j then some v else none)
  unfolding get
  get-append_last j k v [] = refl
  get-append_last j k v ((i, w) ∷ d) = ground (arith, get-append_last j k v d)

  length-remove-le : (k : String) (d : List (String × V)) → length (remove k d) ≤ length d
  unfolding remove
  length-remove-le k [] = omega arith
  length-remove-le k ((j, w) ∷ d) = ground (arith, length-remove-le k d)

  length-remove-lt :
      (k : String) (v : V) (d : List (String × V))
      → get k d ≡ some v
      → length (remove k d) < length d
  unfolding remove get
  length-remove-lt k v [] e = cc
  length-remove-lt k v ((j, w) ∷ d) e = ground (arith, length-remove-le k d, length-remove-lt k v d)

length-make_room :
    {F : Type 0} (buckets : Buckets F)
    → length buckets ≤ max_buckets
    → length (make_room buckets) < max_buckets
unfolding make_room
length-make_room [] h = omega arith
length-make_room (x ∷ buckets) h = ground arith

make_room_id :
    {F : Type 0} (buckets : Buckets F) → length buckets < max_buckets → make_room buckets ≡ buckets
unfolding make_room
make_room_id buckets h = ground arith

module _ {F : Type 0} (key : String) (buckets : Buckets F) where
  length-others :
      (o : Option (Bucket F))
      → get key buckets ≡ o
      → length buckets ≤ max_buckets
      → length (others key o buckets) < max_buckets
  unfolding others
  length-others none e h = length-make_room buckets h
  length-others (some b) e h = omega (arith, length-remove-lt key b buckets e)

  length-others-le :
      (o : Option (Bucket F))
      → length buckets < max_buckets
      → length (others key o buckets) ≤ length buckets
  unfolding others
  length-others-le none h = rw (make_room_id buckets h) (omega arith)
  length-others-le (some b) h = length-remove-le key buckets

  get-others :
      (j : String) (o : Option (Bucket F))
      → get key buckets ≡ o
      → length buckets < max_buckets
      → get j (others key o buckets) ≡ (if key == j then none else get j buckets)
  unfolding others
  get-others j none e h = rw (make_room_id buckets h) (go (key == j) refl)
    where
      go : (b : Bool) → (key == j) ≡ b → get j buckets ≡ (if b then none else get j buckets)
      go true same = rw (← (eq_iff key j).0 same) e
      go false other = refl
  get-others j (some b) e h = get-remove key j buckets

module _ {F : Type 0} (a : Arith F) (l : Limits) where
  -- The process never holds more than its ten thousand buckets.
  pub allow_local-le-max :
      (key : String) (now : ℕ) (buckets : Buckets F)
      → length buckets ≤ max_buckets
      → length (allow_local a l key now buckets).1 ≤ max_buckets
  unfolding allow_local
  allow_local-le-max key now buckets h = omega (
    arith,
    length-append (others key (get key buckets) buckets) ((key, _) ∷ []),
    length-others key buckets (get key buckets) refl h,
  )

  -- the script refills the bucket that it has just made
  pub refill-full : (now : ℕ) → refill a l now (full a l now) ≡ full a l now
  unfolding refill full
  refill-full now =
      rw (a.add-sub_self (capacity a l) (rate a l) now)
        (ap (λ x. record { tokens = x; updated = now }) same)
    where
      same : least a (capacity a l) (capacity a l) ≡ capacity a l
      same = elim (Bool-cases (a.lt (capacity a l) (capacity a l))) [
        | inl smaller ↦ rw smaller refl
        | inr equal ↦ rw equal refl
      ]

  touched-script :
      (now : ℕ) (o : Option (Bucket F)) → spend a l (touched a l now o) ≡ script a l now o
  unfolding script touched
  touched-script now none = ap (spend a l) (sym (refill-full now))
  touched-script now (some b) = refl

  pub allow_local-script :
      (key : String) (now : ℕ) (buckets : Buckets F)
      → length buckets < max_buckets
      → let (verdict, b) = script a l now (get key buckets) in
        let (verdict', buckets') = allow_local a l key now buckets in
        (verdict' ≡ verdict)
        × ((j : String) → get j buckets' ≡ set_bucket key b (λ k. get k buckets) j)
        × (length buckets' ≤ length buckets + 1)
  unfolding allow_local
  allow_local-script key now buckets room =
      let same = touched-script now (get key buckets) in
      (
        ap (λ (x : Verdict F × Bucket F). x.0) same,
        λ j. rw same (
            get-append_last j key (script a l now (get key buckets)).1
              (others key (get key buckets) buckets)
            ∙ rw (get-others key buckets j (get key buckets) refl room) (ground arith)),
        omega (
          arith,
          length-append (others key (get key buckets) buckets) ((key, _) ∷ []),
          length-others-le key buckets (get key buckets) room,
        ),
      )

  unfoldable pub run_local : List Asking → Buckets F → List (Verdict F)
  run_local [] buckets = []
  run_local ((key, now) ∷ asked) buckets =
      let (verdict, buckets') = allow_local a l key now buckets in
      verdict ∷ run_local asked buckets'

  -- While there is room for a bucket for each of the requests, in any order and from any clients,
  -- the verdicts of the process are those of the specification on the buckets that it holds.
  pub run_local-refines :
      (asked : List Asking) (buckets : Buckets F)
      → length buckets + length asked ≤ max_buckets
      → run_local asked buckets ≡ run a l asked (λ k. get k buckets)
  unfolding run run_local
  run_local-refines [] buckets room = refl
  run_local-refines ((key, now) ∷ asked) buckets room =
      let (verdict, after, size) = allow_local-script key now buckets (omega arith) in
      rw verdict (
        ap (λ vs. (script a l now (get key buckets)).0 ∷ vs)
          (run_local-refines asked (allow_local a l key now buckets).1 (omega arith)
            ∙ ap (run a l asked) (fun_ext after)))
