-- ===== src/Wal/Restart.antt =====
-- Opening the log again, as a restart does.
use Prim.Native.String.{String, len, ◌++◌ as append_text}
use deepiri_sugar_glider.Base.{
  ℕ, ◌≤◌, true, false, List, [], ◌∷◌, ◌++◌, ◌≡◌, refl, sym, ap, ◌∙◌, arith, ◌&&◌, inl, inr,
  Bool-cases, Option-cases, none, some, Result, ok, err, le→leb, Result-cases,
}
use deepiri_sugar_glider.Base.Int.{pos, leb_ℤ, ltb_ℤ}
use deepiri_sugar_glider.RedisStreams.{PublishRequest}
use deepiri_sugar_glider.Wal.{
  Json, WalError, token_too_long, content_of, count_depth_failed, wal_full, Fs, content,
  open_create, Faults, no_faults, Log, Options, resolve_wal_path, count_file_lines, count_non_blank,
  with_depth, limits, new, append, append_line, over_bytes, finish_count,
}
use deepiri_sugar_glider.Wal.Scan.{
  scan, scan_lines, raw_lines, raw_lines-append, default_limit, IsTerminated,
}
use deepiri_sugar_glider.Wal.Lines.{IsKept, count-scan}
use deepiri_sugar_glider.Wal.Depth.{IsSound, WritesLines, closed_line, write_to_self, entry_of}

-- A log that opens counts the lines of its file that are not blank, and has the given limits.
pub record Opens (fs : Fs) (opts : List Options) (l : Log) : Type 0 where
  pub counted : l.depth ≡ pos (count_non_blank (raw_lines (content fs l.path)))
  pub max_entries : l.max_entries ≡ (limits opts).max_entries
  pub max_bytes : l.max_bytes ≡ (limits opts).max_bytes

-- What the success of the last step says of the log.
opened :
    (path : String) (o : Options) (n : ℕ) (fs : Fs) (l : Log)
    → (with_depth path o (fs, ok n)).1 ≡ ok l
    → (l.path ≡ path)
      × (l.depth ≡ pos n)
      × (l.max_entries ≡ o.max_entries)
      × (l.max_bytes ≡ o.max_bytes)
unfolding with_depth
opened path o n fs l h = ground arith

counted_path :
    (fs : Fs) (faults : Faults) (path : String) (opts : List Options) (l : Log)
    → (with_depth path (limits opts) (count_file_lines fs faults path)).1 ≡ ok l
    → (l.path ≡ path) × Opens fs opts l
unfolding count_file_lines finish_count with_depth
counted_path fs faults path opts l h = elim (Bool-cases faults.open_file) [
  | inl o ↦ cc (simp o at h)
  | inr o ↦ elim (Bool-cases (scan default_limit (content fs path)).too_long) [
    | inl t ↦ cc (simp (o, t) at h)
    | inr t ↦
        let (same, depth, entries, bytes) =
          opened path (limits opts) _ (open_create fs path) l (simp (o, t) at h) in
        (
          same,
          record {
            counted =
                depth
                ∙ ap pos (count-scan default_limit (content fs path) t)
                ∙ ap (λ p. pos (count_non_blank (raw_lines (content fs p)))) (sym same);
            max_entries = entries;
            max_bytes = bytes;
          },
        )
  ]
]

pub new-Opens :
    (fs : Fs) (faults : Faults) (dir : String) (opts : List Options) (l : Log)
    → (new fs faults dir opts).1 ≡ ok l
    → (resolve_wal_path fs faults dir ≡ ok l.path) × Opens fs opts l
unfolding new
new-Opens fs faults dir opts l h = elim (Bool-cases faults.mkdir) [
  | inl m ↦ cc (simp m at h)
  | inr m ↦ elim (Result-cases (resolve_wal_path fs faults dir)) [
    | inl (e, r) ↦ cc (simp (m, r) at h)
    | inr (path, r) ↦
        let (same, o) = counted_path fs faults path opts l (simp (m, r) at h) in
        (r ∙ ap ok (sym same), o)
  ]
]

pub scan_lines-too_long :
    (limit : ℕ) (ls ms : List String) (t : String)
    → limit ≤ len t
    → (scan_lines limit (ls ++ t ∷ ms)).too_long ≡ true
unfolding scan_lines
scan_lines-too_long limit [] ms t h = rw (le→leb limit (len t) h)
scan_lines-too_long limit (l ∷ ls) ms t h = ground (arith, scan_lines-too_long limit ls ms t h)

same_path : (p q : String) → ◌≡◌ {A = Result WalError String} (ok p) (ok q) → p ≡ q
same_path p q e = cc

-- Where the counter is exact, a log that opens again on the same file has the depth that it had before.
pub restart_depth :
    (fs : Fs) (faults : Faults) (dir : String) (opts : List Options) (l l' : Log)
    → IsSound l fs
    → (new fs faults dir opts).1 ≡ ok l'
    → resolve_wal_path fs faults dir ≡ ok l.path
    → l'.depth ≡ l.depth
restart_depth fs faults dir opts l l' s h r =
    let (r', o) = new-Opens fs faults dir opts l' h in
    o.counted
    ∙ ap (λ p. pos (count_non_blank (raw_lines (content fs p))))
        (same_path l'.path l.path (sym r' ∙ r))
    ∙ sym s.counted

appended_line :
    (l : Log) (fs : Fs) (faults : Faults) (line : String)
    → faults.open_file ≡ false
    → faults.write ≡ none
    → (append_line l fs faults line).2 ≡ none
    → content (append_line l fs faults line).1 l.path ≡ append_text (content fs l.path) line
unfolding append_line
appended_line l fs faults line o w h = elim (Option-cases (over_bytes l fs faults line)) [
  | inr (e, over) ↦ cc (rw (over, append_line) at h)
  | inl fits ↦
      rw (fits, append_line)
        (simp (o, w)
          (ap content_of (write_to_self fs l.path (append_text (content fs l.path) line))))
]

module _ (json : Json) (l : Log) (fs : Fs) (now reason : String) where
  append_full :
      (req : PublishRequest)
      → (ltb_ℤ (pos 0) l.max_entries && leb_ℤ l.max_entries l.depth) ≡ true
      → append json l fs no_faults now reason req ≡ (l, fs, some wal_full)
  unfolding append
  append_full req h = rw h

  append_room :
      (t : String) (req : PublishRequest)
      → (ltb_ℤ (pos 0) l.max_entries && leb_ℤ l.max_entries l.depth) ≡ false
      → json.marshal (entry_of now reason req) ≡ some t
      → append json l fs no_faults now reason req ≡ append_line l fs no_faults (append_text t "\n")
  unfolding append
  append_room t req h m = rw (h, m)

pub appended :
    (json : Json) (l : Log) (fs : Fs) (now reason t : String) (req : PublishRequest)
    → json.marshal (entry_of now reason req) ≡ some t
    → (append json l fs no_faults now reason req).2 ≡ none
    → content (append json l fs no_faults now reason req).1 l.path
      ≡ append_text (content fs l.path) (append_text t "\n")
appended json l fs now reason t req m h =
    elim (Bool-cases (ltb_ℤ (pos 0) l.max_entries && leb_ℤ l.max_entries l.depth)) [
      | inl full ↦ cc (rw (append_full json l fs now reason req full) at h)
      | inr room ↦ rw (append_room json l fs now reason t req room m) (
          appended_line l fs no_faults (append_text t "\n") refl refl
            (rw (append_room json l fs now reason t req room m) at h))
    ]

too_long-content :
    (s t : String)
    → IsTerminated s
    → IsKept t
    → default_limit ≤ len t
    → (scan default_limit (append_text s (append_text t "\n"))).too_long ≡ true
unfolding scan
too_long-content s t h k long =
    rw (raw_lines-append s (append_text t "\n") h, closed_line t k)
      (scan_lines-too_long default_limit (raw_lines s) [] t long)

refused :
    (fs : Fs) (dir path : String) (opts : List Options)
    → resolve_wal_path fs no_faults dir ≡ ok path
    → (scan default_limit (content fs path)).too_long ≡ true
    → (new fs no_faults dir opts).1 ≡ err (count_depth_failed token_too_long)
unfolding new count_file_lines finish_count with_depth
refused fs dir path opts r t = rw (r, t)

-- After an append, to a log with an exact counter, of an entry whose line has 64 KiB or more, the log cannot
-- be opened any more: its lines are too long for the scanner that counts them.
pub append_blocks_restart :
    (json : Json) (l : Log) (fs : Fs) (now reason t dir : String) (req : PublishRequest)
    (opts : List Options)
    → WritesLines json
    → IsSound l fs
    → json.marshal (entry_of now reason req) ≡ some t
    → default_limit ≤ len t
    → (append json l fs no_faults now reason req).2 ≡ none
    → resolve_wal_path (append json l fs no_faults now reason req).1 no_faults dir ≡ ok l.path
    → (new (append json l fs no_faults now reason req).1 no_faults dir opts).1
      ≡ err (count_depth_failed token_too_long)
append_blocks_restart json l fs now reason t dir req opts w s m long h r =
    refused _ dir l.path opts r (
      rw (appended json l fs now reason t req m h)
        (too_long-content (content fs l.path) t s.terminated (w.kept _ t m) long))
