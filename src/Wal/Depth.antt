-- ===== src/Wal/Depth.antt =====
-- The depth counter of the log against the lines of its file.
use Prim.Native.String.{String, ◌++◌ as append_text}
use text.Mathlib.TextPositions.{eq_refl}
use text.Mathlib.TextLemmas as T
use deepiri_sugar_glider.Base.{
  ℕ, ◌+◌, List, [], ◌∷◌, ◌++◌, ◌≡◌, refl, ap, ◌∙◌, arith, inl, inr, Bool-cases, Option-cases, ◌&&◌,
  none, some,
}
use deepiri_sugar_glider.Base.Int.{ℤ, pos, ltb_ℤ, leb_ℤ, ◌+ℤ◌}
use deepiri_sugar_glider.RedisStreams.{PublishRequest}
use deepiri_sugar_glider.Wal.{
  Entry, Json, Fs, write_to, content, Faults, Log, count_non_blank, over_bytes, write_line,
  append_line, append,
}
use deepiri_sugar_glider.Wal.Scan.{raw_lines, raw_lines-append, raw_lines-line, IsTerminated}
use deepiri_sugar_glider.Wal.Lines.{IsKept, count-IsKept, IsTerminated-newline}

-- The counter is the number of lines that are not blank, and the last line has its newline.
pub record IsSound (l : Log) (fs : Fs) : Type 0 where
  pub terminated : IsTerminated (content fs l.path)
  pub counted : l.depth ≡ pos (count_non_blank (raw_lines (content fs l.path)))

-- What the log relies on in json.Marshal: the text is one line with no space around it.
pub record WritesLines (json : Json) : Type 0 where
  pub kept : (e : Entry) (t : String) → json.marshal e ≡ some t → IsKept t

pub count_non_blank-append :
    (ls ms : List String) → count_non_blank (ls ++ ms) ≡ count_non_blank ls + count_non_blank ms
unfolding count_non_blank
count_non_blank-append [] ms = omega arith
count_non_blank-append (l ∷ ls) ms = ground (arith, count_non_blank-append ls ms)

pub write_to_self : (fs : Fs) (path t : String) → write_to fs path t path ≡ some t
unfolding write_to
write_to_self fs path t = rw eq_refl

pub closed_line : (t : String) → IsKept t → raw_lines (append_text t "\n") ≡ t ∷ []
closed_line t k = raw_lines-line t "" k.one_line ∙ ap (◌∷◌ t) (unfold raw_lines in refl)

one_line_more :
    (s t : String)
    → IsTerminated s
    → IsKept t
    → count_non_blank (raw_lines (append_text s (append_text t "\n")))
      ≡ count_non_blank (raw_lines s) + 1
one_line_more s t h k =
    rw (raw_lines-append s (append_text t "\n") h, closed_line t k)
      (count_non_blank-append (raw_lines s) (t ∷ [])
        ∙ ap (λ (n : ℕ). count_non_blank (raw_lines s) + n) (count-IsKept (t ∷ []) (k, tt)))

line_more-IsTerminated : (s t : String) → IsTerminated (append_text s (append_text t "\n"))
line_more-IsTerminated s t = rw (← T.append_assoc) (IsTerminated-newline (append_text s t))

pos_suc : (d : ℤ) (n m : ℕ) → d ≡ pos n → m ≡ n + 1 → d +ℤ pos 1 ≡ pos m
unfolding ◌+ℤ◌
pos_suc d n m h e = ground arith

write_line-IsSound :
    (l : Log) (fs : Fs) (faults : Faults) (t : String)
    → IsKept t
    → faults.write ≡ none
    → IsSound l fs
    → IsSound
        (write_line l fs faults (append_text t "\n")).0
        (write_line l fs faults (append_text t "\n")).1
unfolding write_line
write_line-IsSound l fs faults t k f s = elim (Bool-cases faults.open_file) [
  | inl e ↦ rw e s
  | inr e ↦
      rw (e, f)
        (record {
          terminated = rw (write_to_self fs l.path) (line_more-IsTerminated (content fs l.path) t);
          counted =
              rw (write_to_self fs l.path) (
                pos_suc l.depth _ _ s.counted (one_line_more (content fs l.path) t s.terminated k));
        })
]

append_line-IsSound :
    (l : Log) (fs : Fs) (faults : Faults) (t : String)
    → IsKept t
    → faults.write ≡ none
    → IsSound l fs
    → IsSound
        (append_line l fs faults (append_text t "\n")).0
        (append_line l fs faults (append_text t "\n")).1
unfolding append_line
append_line-IsSound l fs faults t k f s =
    elim (Option-cases (over_bytes l fs faults (append_text t "\n"))) [
      | inl e ↦ rw (e, append_line) (write_line-IsSound l fs faults t k f s)
      | inr (x, e) ↦ rw (e, append_line) s
    ]

abbrev pub entry_of : String → String → PublishRequest → Entry
entry_of now reason req = record { time = now; reason = reason; request = req }

-- Where the codec writes lines, an append that the file system does not tear keeps the counter exact, on
-- every branch.
pub append-IsSound :
    (json : Json) (l : Log) (fs : Fs) (faults : Faults) (now reason : String) (req : PublishRequest)
    → WritesLines json
    → faults.write ≡ none
    → IsSound l fs
    → IsSound (append json l fs faults now reason req).0 (append json l fs faults now reason req).1
unfolding append
append-IsSound json l fs faults now reason req w f s =
    elim (Bool-cases (ltb_ℤ (pos 0) l.max_entries && leb_ℤ l.max_entries l.depth)) [
      | inl e ↦ rw e s
      | inr e ↦ rw e (elim (Option-cases (json.marshal (entry_of now reason req))) [
        | inl n ↦ rw n s
        | inr (t, m) ↦ rw m (append_line-IsSound l fs faults t (w.kept _ t m) f s)
      ])
    ]
