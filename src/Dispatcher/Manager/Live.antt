-- ===== src/Dispatcher/Manager/Live.antt =====
-- The dispatchers that the manager of internal/service/dispatcher.go finds: each one runs.
use Prim.Native.String.{String}
use text.Mathlib.Text.{◌==◌ as str_eq}
use text.Mathlib.TextEquality.{eq_iff}
use deepiri_sugar_glider.Base.{
  ℕ, suc, ◌<◌, ◌≡◌, refl, sym, ap, ◌∙◌, subst, arith, true, false, none, some, List, [], ◌∷◌, ◌==◌,
  if◌then◌else◌, inl, inr, Bool-cases, Option-cases, ==_iff, none-some, true-false,
}
use deepiri_sugar_glider.Dispatcher.{
  Dispatcher, subscribe, stop, remove_subscriber, close_one, is_nil, is_present,
}
use deepiri_sugar_glider.Dispatcher.Safety.{new}
use deepiri_sugar_glider.Dispatcher.Manager.{
  Manager, find, delete_key, update, is_same, get_or_create, remove_if_same, put, subscribe_at,
  remove_at, close, Reachable, initial, next, Step, gets, subscribes, removes, closes,
}

some_inj : {i j : ℕ} → some i ≡ some j → i ≡ j
some_inj e = cc

same_handle : (i : ℕ) → (i == i) ≡ true
same_handle i = (==_iff i i).1 refl

other_handle : (i n : ℕ) → i < n → (i == n) ≡ false
other_handle i n h = ground arith

find-delete_key :
    (k key : String) (ds : List (String × ℕ))
    → find k (delete_key key ds) ≡ (if str_eq key k then none else find k ds)
unfolding find delete_key
find-delete_key k key [] = ground arith
find-delete_key k key ((j, h) ∷ ds) =
    ground (arith, eq_iff j key, eq_iff j k, eq_iff key k, find-delete_key k key ds)

module _ {E : Type 0} where
  -- A dispatcher in the map has the key it is filed under, and has not stopped.
  pub record IsFiled (m : Manager E) (key : String) (h : ℕ) : Type 0 where
    pub old : h < m.next_handle
    pub key_of : m.keys h ≡ key
    pub runs : (m.objects h).stopped ≡ false

  abbrev pub IsLive : Manager E → Type 0
  IsLive m = (key : String) (h : ℕ) → find key m.dispatchers ≡ some h → IsFiled m key h

  put-IsLive :
      (m : Manager E) (h : ℕ) (d : Dispatcher E)
      → (d.stopped ≡ (m.objects h).stopped)
      → IsLive m
      → IsLive (put m h d)
  put-IsLive m h d e l key i f =
      let g = l key i f in
      record {
        old = g.old;
        key_of = g.key_of;
        runs = elim (Bool-cases (i == h)) [
          | inl x ↦ rw x (e ∙ subst (λ j. (m.objects j).stopped ≡ false) ((==_iff i h).0 x) g.runs)
          | inr x ↦ rw x g.runs
        ];
      }

  subscribe_at-IsLive : (m : Manager E) (h : ℕ) → IsLive m → IsLive (subscribe_at m h).0
  unfolding subscribe_at subscribe
  subscribe_at-IsLive m h l = put-IsLive m h (subscribe (m.objects h)).0 refl l

  -- A new dispatcher under a key that has none.
  abbrev created : ℕ → Manager E → String → Manager E
  created buffer m key = record m {
    dispatchers = (key, m.next_handle) ∷ m.dispatchers;
    objects = update m.objects m.next_handle (new buffer);
    keys = update m.keys m.next_handle key;
    next_handle = suc m.next_handle;
  }

  created-IsLive :
      (buffer : ℕ) (m : Manager E) (key : String) → IsLive m → IsLive (created buffer m key)
  unfolding find
  created-IsLive buffer m key l k h f = elim (Bool-cases (str_eq key k)) [
    | inl e ↦ subst (IsFiled (created buffer m key) k) (some_inj (rw e at f)) (record {
      old = omega arith;
      key_of = rw (same_handle m.next_handle) ((eq_iff key k).0 e);
      runs = rw (same_handle m.next_handle) refl;
    })
    | inr e ↦
        let g = l k h (rw e at f) in
        record {
          old = omega (arith, g.old);
          key_of = rw (other_handle h m.next_handle g.old) g.key_of;
          runs = rw (other_handle h m.next_handle g.old) g.runs;
        }
  ]

  get_or_create-IsLive :
      (buffer : ℕ) (m : Manager E) (key : String) → IsLive m → IsLive (get_or_create buffer m key).0
  unfolding get_or_create
  get_or_create-IsLive buffer m key l = elim (Bool-cases m.closed) [
    | inl c ↦ simp c l
    | inr c ↦ simp c (elim (Option-cases (find key m.dispatchers)) [
      | inr (h, f) ↦ rw f l
      | inl f ↦ rw f (created-IsLive buffer m key l)
    ])
  ]

  -- A dispatcher that is filed and is not the one replaced.
  IsFiled-apart :
      (m : Manager E) (h i : ℕ) (d : Dispatcher E) (ds : List (String × ℕ)) (k : String)
      → (i == h) ≡ false
      → IsFiled m k i
      → IsFiled (record (put m h d) { dispatchers = ds }) k i
  IsFiled-apart m h i d ds k e g = record { old = g.old; key_of = g.key_of; runs = rw e g.runs }

  not_deleted :
      (m : Manager E) (h i : ℕ) (k : String)
      → find k (delete_key (m.keys h) m.dispatchers) ≡ some i
      → (find k m.dispatchers ≡ some i) × (str_eq (m.keys h) k ≡ false)
  not_deleted m h i k f = elim (Bool-cases (str_eq (m.keys h) k)) [
    | inl e ↦ absurd (none-some (sym (find-delete_key k (m.keys h) m.dispatchers ∙ rw e refl) ∙ f))
    | inr e ↦ (sym (find-delete_key k (m.keys h) m.dispatchers ∙ rw e refl) ∙ f, e)
  ]

  apart_by_key :
      (m : Manager E) (h i : ℕ) (k : String)
      → str_eq (m.keys h) k ≡ false
      → m.keys i ≡ k
      → (i == h) ≡ false
  apart_by_key m h i k e g = elim (Bool-cases (i == h)) [
    | inr x ↦ x
    | inl x ↦
        absurd
          (true-false (sym ((eq_iff (m.keys h) k).1 (ap m.keys (sym ((==_iff i h).0 x)) ∙ g)) ∙ e))
  ]

  apart_by_find :
      (m : Manager E) (h i : ℕ) (k : String)
      → is_same (find (m.keys h) m.dispatchers) h ≡ false
      → m.keys i ≡ k
      → find k m.dispatchers ≡ some i
      → (i == h) ≡ false
  unfolding is_same
  apart_by_find m h i k e g f = elim (Bool-cases (i == h)) [
    | inr x ↦ x
    | inl x ↦
        let same = (==_iff i h).0 x in
        let found = ap (λ q. find q m.dispatchers) (ap m.keys (sym same) ∙ g) ∙ f ∙ ap some same in
        absurd (true-false (sym (ap (λ r. is_same r h) found ∙ same_handle h) ∙ e))
  ]

  remove_if_same-IsLive :
      (m : Manager E) (h : ℕ) (d : Dispatcher E)
      → IsLive m
      → IsLive (remove_if_same (put m h d) (m.keys h) h)
  unfolding remove_if_same
  remove_if_same-IsLive m h d l = elim (Bool-cases (is_same (find (m.keys h) m.dispatchers) h)) [
    | inl e ↦ rw e (λ k i f.
        let (f', x) = not_deleted m h i k f in
        let g = l k i f' in
        IsFiled-apart m h i d (delete_key (m.keys h) m.dispatchers) k
          (apart_by_key m h i k x g.key_of) g)
    | inr e ↦ rw e (λ k i f.
        let g = l k i f in
        IsFiled-apart m h i d m.dispatchers k (apart_by_find m h i k e g.key_of f) g)
  ]

  close_one-stopped : (i : ℕ) (d : Dispatcher E) → (close_one i d).stopped ≡ d.stopped
  unfolding close_one
  close_one-stopped i d = elim (Bool-cases (is_present i d.subscribers)) [
    | inl e ↦ simp e refl
    | inr e ↦ simp e refl
  ]

  remove_at-IsLive : (m : Manager E) (h id : ℕ) → IsLive m → IsLive (remove_at m h id)
  unfolding remove_at remove_subscriber
  remove_at-IsLive m h id l = elim (Bool-cases (is_nil (close_one id (m.objects h)).subscribers)) [
    | inl e ↦ rw e (remove_if_same-IsLive m h (stop (close_one id (m.objects h))) l)
    | inr e ↦
        rw e (put-IsLive m h (close_one id (m.objects h)) (close_one-stopped id (m.objects h)) l)
  ]

  close-IsLive : (m : Manager E) → IsLive m → IsLive (close m)
  unfolding close find
  close-IsLive m l = elim (Bool-cases m.closed) [
    | inl e ↦ simp e l
    | inr e ↦ simp e (λ k h f. absurd (none-some f))
  ]

  Step-IsLive : (buffer : ℕ) (m n : Manager E) → IsLive m → Step buffer m n → IsLive n
  Step-IsLive buffer m _ l (gets key) = get_or_create-IsLive buffer m key l
  Step-IsLive buffer m _ l (subscribes h) = subscribe_at-IsLive m h l
  Step-IsLive buffer m _ l (removes h id) = remove_at-IsLive m h id l
  Step-IsLive buffer m _ l closes = close-IsLive m l

  -- Whatever the order of the operations on a new manager, each taken as a whole, a dispatcher that it finds
  -- under a key was made for that key and has not stopped.
  pub Reachable-IsLive : (buffer : ℕ) (m : Manager E) → Reachable buffer m → IsLive m
  unfolding find
  Reachable-IsLive buffer _ initial k h f = absurd (none-some f)
  Reachable-IsLive buffer n (next m _ r st) k h f =
      Step-IsLive buffer m n (Reachable-IsLive buffer m r) st k h f
