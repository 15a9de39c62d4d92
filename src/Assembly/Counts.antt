-- ===== src/Assembly/Counts.antt =====
-- internal/nzb/assembly.go: the segments in each status, counted, and the jobs that hold some.
use stremio_server_go.Common.{
  ℕ, suc, ◌+◌, ◌≡◌, refl, ◌≢◌, List, [], ◌∷◌, ◌++◌, some, length, get_elem?, set, get_elem?-set_ne,
  arith, sym, ◌∙◌, ap,
}
pub use stremio_server_go.Common.Weigh.{
  weigh, weigh-set, le-weigh, lt-length_of_get, weigh-replicate,
}
use stremio_server_go.Assembly.Model.{SegStatus, seg_pending, seg_inflight, seg_done}
use stremio_server_go.Assembly.System.{Job}

abbrev pub pend : SegStatus → ℕ
pend seg_pending = 1
pend _ = 0

abbrev pub infl : SegStatus → ℕ
infl seg_inflight = 1
infl _ = 0

abbrev pub left : SegStatus → ℕ
left seg_done = 0
left _ = 1

-- Every segment that is left is pending or in flight.
pub weigh-left : (xs : List SegStatus) → weigh left xs ≡ weigh pend xs + weigh infl xs
weigh-left [] = omega arith
weigh-left (seg_pending ∷ xs) = omega (arith, weigh-left xs)
weigh-left (seg_inflight ∷ xs) = omega (arith, weigh-left xs)
weigh-left (seg_done ∷ xs) = omega (arith, weigh-left xs)

-- No job of the list is for segment `i`.
abbrev pub Others : ℕ → List Job → Type 0
Others i [] = Unit {0}
Others i (j ∷ js) = (i ≢ j.idx) × Others i js

-- Each job is for a segment in flight, and no two for the same.
abbrev pub JobsAt : List SegStatus → List Job → Type 0
JobsAt xs [] = Unit {0}
JobsAt xs (j ∷ js) = (get_elem? xs j.idx ≡ some seg_inflight) × Others j.idx js × JobsAt xs js

pub JobsAt-set :
    (xs : List SegStatus) (i : ℕ) (v : SegStatus) (js : List Job)
    → Others i js
    → JobsAt xs js
    → JobsAt (set xs i v) js
JobsAt-set xs i v [] o h = tt
JobsAt-set xs i v (j ∷ js) o h =
    (get_elem?-set_ne xs v o.0 ∙ h.0, h.1, JobsAt-set xs i v js o.1 h.2)

pub Others-pending :
    (xs : List SegStatus) (i : ℕ) (js : List Job)
    → get_elem? xs i ≡ some seg_pending
    → JobsAt xs js
    → Others i js
Others-pending xs i [] p h = tt
Others-pending xs i (j ∷ js) p h =
    ((λ e. cc (ap (get_elem? xs) e, p, h.0)), Others-pending xs i js p h.2)

Others-middle :
    (i : ℕ) (pre post : List Job) (j : Job)
    → Others i (pre ++ j ∷ post)
    → (i ≢ j.idx) × Others i (pre ++ post)
Others-middle i [] post j h = h
Others-middle i (k ∷ pre) post j h = let r = Others-middle i pre post j h.1 in (r.0, (h.0, r.1))

-- A job apart from the others.
pub JobsAt-middle :
    (xs : List SegStatus) (pre post : List Job) (j : Job)
    → JobsAt xs (pre ++ j ∷ post)
    → (get_elem? xs j.idx ≡ some seg_inflight)
      × Others j.idx (pre ++ post)
      × JobsAt xs (pre ++ post)
JobsAt-middle xs [] post j h = h
JobsAt-middle xs (k ∷ pre) post j h =
    let r = JobsAt-middle xs pre post j h.2 in
    let o = Others-middle k.idx pre post j h.1 in (r.0, ((λ e. o.0 (sym e)), r.1), (h.0, o.1, r.2))

Others-replace :
    (i : ℕ) (pre post : List Job) (j k : Job)
    → k.idx ≡ j.idx
    → Others i (pre ++ j ∷ post)
    → Others i (pre ++ k ∷ post)
Others-replace i [] post j k e h = rw e h
Others-replace i (l ∷ pre) post j k e h = (h.0, Others-replace i pre post j k e h.1)

-- Opening a job changes neither its segment nor the others.
pub JobsAt-replace :
    (xs : List SegStatus) (pre post : List Job) (j k : Job)
    → k.idx ≡ j.idx
    → JobsAt xs (pre ++ j ∷ post)
    → JobsAt xs (pre ++ k ∷ post)
JobsAt-replace xs [] post j k e h = rw e h
JobsAt-replace xs (l ∷ pre) post j k e h =
    (h.0, Others-replace l.idx pre post j k e h.1, JobsAt-replace xs pre post j k e h.2)

pub length-middle {ℓ} :
    {A : Type ℓ} (pre post : List A) (j : A) → length (pre ++ j ∷ post) ≡ suc (length (pre ++ post))
length-middle [] post j = refl
length-middle (k ∷ pre) post j = ap suc (length-middle pre post j)
