-- ===== src/Dispatcher/Manager.antt =====
-- consumeDispatcherManager of internal/service/dispatcher.go. A dispatcher is known by a handle, which stands
-- for its pointer; `objects` and `keys` are what the handles point to. Each operation is under the lock of the
-- manager, or under that of one dispatcher.
pub mod Live
use Prim.Native.String.{String, ◌++◌ as append_text}
use text.Mathlib.Text.{◌==◌ as str_eq}
use text.Mathlib.TextEquality.{eq_iff}
use deepiri_sugar_glider.Base.{
  ℕ, suc, ◌+◌, ◌<◌, ◌≡◌, refl, sym, ap, ◌∙◌, subst, arith, Bool, true, false, Option, none, some,
  List, [], ◌∷◌, length, ◌==◌, if◌then◌else◌, inl, inr, Bool-cases, Option-cases, ==_iff,
}
use deepiri_sugar_glider.Dispatcher.{
  Dispatcher, subscribe, stop, remove_subscriber, subscriber_count, close_one, is_nil, is_present,
}
use deepiri_sugar_glider.Dispatcher.Safety.{new}

unfoldable pub dispatcher_key : String → String → String
dispatcher_key stream_name consumer_group = append_text stream_name (append_text "|" consumer_group)

pub record Manager (E : Type 0) : Type 0 where
  pub dispatchers : List (String × ℕ)
  pub objects : ℕ → Dispatcher E
  pub keys : ℕ → String
  pub next_handle : ℕ
  pub closed : Bool

unfoldable pub find : String → List (String × ℕ) → Option ℕ
find key [] = none
find key ((k, h) ∷ ds) = let rest = find key ds in if str_eq k key then some h else rest

-- delete
unfoldable pub delete_key : String → List (String × ℕ) → List (String × ℕ)
delete_key key [] = []
delete_key key ((k, h) ∷ ds) =
    let rest = delete_key key ds in if str_eq k key then rest else (k, h) ∷ rest

abbrev pub update : {A : Type 0} → (ℕ → A) → ℕ → A → ℕ → A
update f h a i = if i == h then a else f i

pub is_same : Option ℕ → ℕ → Bool
is_same none h = false
is_same (some i) h = i == h

module _ {E : Type 0} where
  unfoldable pub get_or_create : ℕ → Manager E → String → Manager E × Option ℕ
  unfolding find
  get_or_create buffer m key = if m.closed then (m, none) else elim (find key m.dispatchers) [
    | some h ↦ (m, some h)
    | none ↦ (
      record m {
        dispatchers = (key, m.next_handle) ∷ m.dispatchers;
        objects = update m.objects m.next_handle (new buffer);
        keys = update m.keys m.next_handle key;
        next_handle = suc m.next_handle;
      },
      some m.next_handle,
    )
  ]

  unfoldable pub remove_if_same : Manager E → String → ℕ → Manager E
  unfolding is_same find delete_key
  remove_if_same m key h =
      if is_same (find key m.dispatchers) h
      then record m { dispatchers = delete_key key m.dispatchers }
      else m

  abbrev pub put : Manager E → ℕ → Dispatcher E → Manager E
  put m h d = record m { objects = update m.objects h d }

  -- The second half of Subscribe, on the dispatcher that the first half got.
  unfoldable pub subscribe_at : Manager E → ℕ → Manager E × ℕ
  unfolding subscribe
  subscribe_at m h = let (d, id) = subscribe (m.objects h) in (put m h d, id)

  unfoldable pub remove_at : Manager E → ℕ → ℕ → Manager E
  unfolding remove_subscriber remove_if_same
  remove_at m h id =
      let (d, last) = remove_subscriber (m.objects h) id in
      if last then remove_if_same (put m h d) (m.keys h) h else put m h d

  stop_all : List (String × ℕ) → (ℕ → Dispatcher E) → ℕ → Dispatcher E
  unfolding stop
  stop_all [] objects = objects
  stop_all ((k, h) ∷ ds) objects = stop_all ds (update objects h (stop (objects h)))

  unfoldable pub close : Manager E → Manager E
  unfolding stop_all
  close m =
      if m.closed
      then m
      else record m { closed = true; dispatchers = []; objects = stop_all m.dispatchers m.objects }

  unfoldable pub count : Manager E → ℕ
  count m = length m.dispatchers

  total : (ℕ → Dispatcher E) → List (String × ℕ) → ℕ
  unfolding subscriber_count
  total objects [] = 0
  total objects ((k, h) ∷ ds) = subscriber_count (objects h) + total objects ds

  unfoldable pub manager_subscriber_count : Manager E → ℕ
  unfolding total
  manager_subscriber_count m = total m.objects m.dispatchers

  abbrev pub empty : Manager E
  empty = record {
    dispatchers = [];
    objects = λ _. new 0;
    keys = λ _. "";
    next_handle = 0;
    closed = false;
  }

  pub data Step (buffer : ℕ) (m : Manager E) : Manager E → Type 0 where
    gets : (key : String) → Step buffer m (get_or_create buffer m key).0
    subscribes : (h : ℕ) → Step buffer m (subscribe_at m h).0
    removes : (h id : ℕ) → Step buffer m (remove_at m h id)
    closes : Step buffer m (close m)

  pub data Reachable (buffer : ℕ) : Manager E → Type 0 where
    initial : Reachable buffer empty
    next : (m n : Manager E) → Reachable buffer m → Step buffer m n → Reachable buffer n
