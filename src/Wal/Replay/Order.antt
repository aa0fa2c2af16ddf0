-- ===== src/Wal/Replay/Order.antt =====
-- Which entries one Replay delivers, in which order, and which it keeps.
use Prim.Native.String.{String}
use deepiri_sugar_glider.Base.{
  ℕ, suc, ◌+◌, Bool, true, false, List, [], ◌∷◌, ◌++◌, ◌≡◌, refl, sym, ap, ◌∙◌, arith, length, All,
  if◌then◌else◌, inl, inr, Bool-cases, Option-cases, Option, none, some, GoError, append-nil,
  append_assoc, ◌⊎◌,
}
use deepiri_sugar_glider.Base.Int.{ℤ, pos, leb_ℤ}
use deepiri_sugar_glider.Base.Text.{is_empty, trim_space}
use deepiri_sugar_glider.Wal.{Entry, Json}
use deepiri_sugar_glider.Wal.Replay.{Pass, Callback, process_line, replay_line, replay_lines}

-- The lines that are not blank, without the space around them.
unfoldable pub trimmed_lines : List String → List String
trimmed_lines [] = []
trimmed_lines (t ∷ ts) =
    let rest = trimmed_lines ts in if is_empty (trim_space t) then rest else trim_space t ∷ rest

-- `xs` is `ds` and `rs` merged, each in its order.
pub data Interleave {ℓ} {A : Type ℓ} : List A → List A → List A → Type ℓ where
  neither : Interleave [] [] []
  to_left : {x : A} {xs ds rs : List A} → Interleave xs ds rs → Interleave (x ∷ xs) (x ∷ ds) rs
  to_right : {x : A} {xs ds rs : List A} → Interleave xs ds rs → Interleave (x ∷ xs) ds (x ∷ rs)

answer_cases :
    {W : Type 0} (a : W × Option GoError)
    → ((v : W) × (a ≡ (v, none))) ⊎ ((v : W) × (e : GoError) × (a ≡ (v, some e)))
answer_cases (v, none) = inl (v, refl)
answer_cases (v, some e) = inr (v, e, refl)

module _ {W : Type 0} (json : Json) (max : ℤ) (publish : Callback W) where
  -- The callback took the entries on these lines, one after the other, without an error.
  pub data Delivers : W → List String → W → Type 0 where
    nothing : {w : W} → Delivers w [] w
    deliver :
        {w v u : W} {line : String} {lines : List String} (entry : Entry)
        → json.unmarshal line ≡ some entry
        → publish w entry.request ≡ (v, none)
        → Delivers v lines u
        → Delivers w (line ∷ lines) u

  -- Why a pass stopped before the lines `later`.
  pub data Ending (v : W) (replayed : ℕ) (later : List String) (w : W) : Type 0 where
    no_more : later ≡ [] → w ≡ v → Ending v replayed later w
    enough : leb_ℤ max (pos replayed) ≡ true → w ≡ v → Ending v replayed later w
    failed :
        (line : String) (rest : List String) (entry : Entry) (e : GoError)
        → later ≡ line ∷ rest
        → json.unmarshal line ≡ some entry
        → publish v entry.request ≡ (w, some e)
        → Ending v replayed later w

  pub record Outcome (lines : List String) (p q : Pass W) : Type 0 where
    pub reached : List String
    pub done : List String
    pub bad : List String
    pub later : List String
    pub last : W
    pub split : lines ≡ reached ++ later
    pub merge : Interleave reached done bad
    pub bad_lines : All (λ l. json.unmarshal l ≡ none) bad
    pub kept : q.remaining ≡ p.remaining ++ (bad ++ later)
    pub count : q.replayed ≡ p.replayed + length done
    pub delivers : Delivers p.world done last
    pub ending : Ending last q.replayed later q.world

  process_lines : Pass W → List String → Pass W
  process_lines p [] = p
  process_lines p (l ∷ ls) = process_lines (process_line json max publish p l) ls

  replay_lines-process_lines :
      (p : Pass W) (tokens : List String)
      → replay_lines json max publish p tokens ≡ process_lines p (trimmed_lines tokens)
  unfolding replay_lines replay_line trimmed_lines process_lines
  replay_lines-process_lines p [] = refl
  replay_lines-process_lines p (t ∷ ts) = elim (Bool-cases (is_empty (trim_space t))) [
    | inl e ↦ rw e (replay_lines-process_lines p ts)
    | inr e ↦ rw e (replay_lines-process_lines (process_line json max publish p (trim_space t)) ts)
  ]

  abbrev at : ℕ → List String → Bool → W → Pass W
  at r rem go w = record { replayed = r; remaining = rem; processing = go; world = w }

  stopped :
      (r : ℕ) (rem : List String) (w : W) (ls : List String)
      → process_lines (at r rem false w) ls ≡ at r (rem ++ ls) false w
  unfolding process_lines process_line
  stopped r rem w [] = ap (λ ks. at r ks false w) (sym (append-nil rem))
  stopped r rem w (l ∷ ls) =
      stopped r (rem ++ l ∷ []) w ls ∙ ap (λ ks. at r ks false w) (append_assoc rem (l ∷ []) ls)

  module _ (r : ℕ) (rem : List String) (w : W) (l : String) where
    step_enough :
        leb_ℤ max (pos r) ≡ true
        → process_line json max publish (at r rem true w) l ≡ at r (rem ++ l ∷ []) false w
    unfolding process_line
    step_enough h = rw h

    step_bad :
        leb_ℤ max (pos r) ≡ false
        → json.unmarshal l ≡ none
        → process_line json max publish (at r rem true w) l ≡ at r (rem ++ l ∷ []) true w
    unfolding process_line
    step_bad h u = rw (h, u)

    step_sent :
        (entry : Entry) (v : W)
        → leb_ℤ max (pos r) ≡ false
        → json.unmarshal l ≡ some entry
        → publish w entry.request ≡ (v, none)
        → process_line json max publish (at r rem true w) l ≡ at (suc r) rem true v
    unfolding process_line
    step_sent entry v h u q = rw (h, u, q)

    step_failed :
        (entry : Entry) (v : W) (e : GoError)
        → leb_ℤ max (pos r) ≡ false
        → json.unmarshal l ≡ some entry
        → publish w entry.request ≡ (v, some e)
        → process_line json max publish (at r rem true w) l ≡ at r (rem ++ l ∷ []) false v
    unfolding process_line
    step_failed entry v e h u q = rw (h, u, q)

  -- Nothing of `l ∷ ls` is delivered: the pass keeps all of it.
  halted :
      (r : ℕ) (rem : List String) (w v : W) (l : String) (ls : List String)
      → Ending w r (l ∷ ls) v
      → process_line json max publish (at r rem true w) l ≡ at r (rem ++ l ∷ []) false v
      → Outcome (l ∷ ls) (at r rem true w) (process_lines (at r rem true w) (l ∷ ls))
  unfolding process_lines
  halted r rem w v l ls ending e =
      rw (e, stopped r (rem ++ l ∷ []) v ls)
        (record {
          reached = [];
          done = [];
          bad = [];
          later = l ∷ ls;
          last = w;
          split = refl;
          merge = neither;
          bad_lines = tt;
          kept = append_assoc rem (l ∷ []) ls;
          count = omega arith;
          delivers = nothing;
          ending = ending;
        })

  past_bad :
      (r : ℕ) (rem : List String) (w : W) (l : String) (ls : List String) (q : Pass W)
      → json.unmarshal l ≡ none
      → Outcome ls (at r (rem ++ l ∷ []) true w) q
      → Outcome (l ∷ ls) (at r rem true w) q
  past_bad r rem w l ls q u o = record {
    reached = l ∷ o.reached;
    done = o.done;
    bad = l ∷ o.bad;
    later = o.later;
    last = o.last;
    split = ap (◌∷◌ l) o.split;
    merge = to_right o.merge;
    bad_lines = (u, o.bad_lines);
    kept = o.kept ∙ append_assoc rem (l ∷ []) (o.bad ++ o.later);
    count = o.count;
    delivers = o.delivers;
    ending = o.ending;
  }

  past_sent :
      (r : ℕ) (rem : List String) (w v : W) (l : String) (ls : List String) (q : Pass W)
      (entry : Entry)
      → json.unmarshal l ≡ some entry
      → publish w entry.request ≡ (v, none)
      → Outcome ls (at (suc r) rem true v) q
      → Outcome (l ∷ ls) (at r rem true w) q
  past_sent r rem w v l ls q entry u sent o = record {
    reached = l ∷ o.reached;
    done = l ∷ o.done;
    bad = o.bad;
    later = o.later;
    last = o.last;
    split = ap (◌∷◌ l) o.split;
    merge = to_left o.merge;
    bad_lines = o.bad_lines;
    kept = o.kept;
    count = omega (arith, o.count);
    delivers = deliver entry u sent o.delivers;
    ending = o.ending;
  }

  process_lines-Outcome :
      (r : ℕ) (rem : List String) (w : W) (ls : List String)
      → Outcome ls (at r rem true w) (process_lines (at r rem true w) ls)
  unfolding process_lines
  process_lines-Outcome r rem w [] = record {
    reached = [];
    done = [];
    bad = [];
    later = [];
    last = w;
    split = refl;
    merge = neither;
    bad_lines = tt;
    kept = sym (append-nil rem);
    count = omega arith;
    delivers = nothing;
    ending = no_more refl refl;
  }
  process_lines-Outcome r rem w (l ∷ ls) = elim (Bool-cases (leb_ℤ max (pos r))) [
    | inl h ↦ halted r rem w w l ls (enough h refl) (step_enough r rem w l h)
    | inr h ↦ elim (Option-cases (json.unmarshal l)) [
      | inl u ↦
          rw (step_bad r rem w l h u)
            (past_bad r rem w l ls _ u (process_lines-Outcome r (rem ++ l ∷ []) w ls))
      | inr (entry, u) ↦ elim (answer_cases (publish w entry.request)) [
        | inl (v, q) ↦
            rw (step_sent r rem w l entry v h u q)
              (past_sent r rem w v l ls _ entry u q (process_lines-Outcome (suc r) rem v ls))
        | inr (v, e, q) ↦
            halted r rem w v l ls (failed l ls entry e refl u q)
              (step_failed r rem w l entry v e h u q)
      ]
    ]
  ]

  pub replay_lines-Outcome :
      (w : W) (tokens : List String)
      → Outcome
          (trimmed_lines tokens)
          (at 0 [] true w)
          (replay_lines json max publish (at 0 [] true w) tokens)
  replay_lines-Outcome w tokens =
      rw (replay_lines-process_lines (at 0 [] true w) tokens)
        (process_lines-Outcome 0 [] w (trimmed_lines tokens))
