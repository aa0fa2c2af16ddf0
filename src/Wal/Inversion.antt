-- ===== src/Wal/Inversion.antt =====
-- What an append did, told from its result.
use Prim.Native.String.{String, ◌++◌ as append_text}
use deepiri_sugar_glider.Base.{
  ◌≡◌, refl, ◌&&◌, Option, none, some, inl, inr, Bool-cases, Option-cases,
}
use deepiri_sugar_glider.Base.Int.{pos, ltb_ℤ, leb_ℤ, ◌+ℤ◌}
use deepiri_sugar_glider.RedisStreams.{PublishRequest}
use deepiri_sugar_glider.Wal.{
  WalError, Json, Fs, write_to, content, Faults, Log, over_bytes, write_line, append_line, append,
}
use deepiri_sugar_glider.Wal.Depth.{entry_of}

-- The line is on the log, whose counter is one more.
pub record Wrote (l : Log) (fs : Fs) (line : String) (r : Log × Fs × Option WalError) : Type 0 where
  pub log : r.0 ≡ record l { depth = l.depth +ℤ pos 1 }
  pub file : r.1 ≡ write_to fs l.path (append_text (content fs l.path) line)

pub record Unchanged (l : Log) (fs : Fs) (r : Log × Fs × Option WalError) : Type 0 where
  pub log : r.0 ≡ l
  pub file : r.1 ≡ fs

write_line-none :
    (l : Log) (fs : Fs) (faults : Faults) (line : String)
    → (write_line l fs faults line).2 ≡ none
    → Wrote l fs line (write_line l fs faults line)
unfolding write_line
write_line-none l fs faults line h = elim (Bool-cases faults.open_file) [
  | inl e ↦ cc (rw e at h)
  | inr e ↦ elim (Option-cases faults.write) [
    | inr (part, f) ↦ cc (rw (e, f) at h)
    | inl f ↦ rw (e, f) (record { log = refl; file = refl })
  ]
]

append_line-none :
    (l : Log) (fs : Fs) (faults : Faults) (line : String)
    → (append_line l fs faults line).2 ≡ none
    → Wrote l fs line (append_line l fs faults line)
unfolding append_line
append_line-none l fs faults line h = elim (Option-cases (over_bytes l fs faults line)) [
  | inl e ↦ rw (e, append_line) (write_line-none l fs faults line (rw (e, append_line) at h))
  | inr (x, e) ↦ cc (rw (e, append_line) at h)
]

-- An append without error wrote the line of its entry.
pub append-none :
    (json : Json) (l : Log) (fs : Fs) (faults : Faults) (now reason : String) (req : PublishRequest)
    → (append json l fs faults now reason req).2 ≡ none
    → (t : String) × (json.marshal (entry_of now reason req) ≡ some t)
      × Wrote l fs (append_text t "\n") (append json l fs faults now reason req)
unfolding append
append-none json l fs faults now reason req h =
    elim (Bool-cases (ltb_ℤ (pos 0) l.max_entries && leb_ℤ l.max_entries l.depth)) [
      | inl e ↦ cc (rw e at h)
      | inr e ↦ elim (Option-cases (json.marshal (entry_of now reason req))) [
        | inl n ↦ cc (rw (e, n) at h)
        | inr (t, m) ↦
            (t, m, rw (e, m) (append_line-none l fs faults (append_text t "\n") (rw (e, m) at h)))
      ]
    ]

write_line-some :
    (l : Log) (fs : Fs) (faults : Faults) (line : String) (x : WalError)
    → faults.write ≡ none
    → (write_line l fs faults line).2 ≡ some x
    → Unchanged l fs (write_line l fs faults line)
unfolding write_line
write_line-some l fs faults line x f h = elim (Bool-cases faults.open_file) [
  | inl e ↦ rw e (record { log = refl; file = refl })
  | inr e ↦ cc (rw (e, f) at h)
]

append_line-some :
    (l : Log) (fs : Fs) (faults : Faults) (line : String) (x : WalError)
    → faults.write ≡ none
    → (append_line l fs faults line).2 ≡ some x
    → Unchanged l fs (append_line l fs faults line)
unfolding append_line
append_line-some l fs faults line x f h = elim (Option-cases (over_bytes l fs faults line)) [
  | inl e ↦ rw (e, append_line) (write_line-some l fs faults line x f (rw (e, append_line) at h))
  | inr (_, e) ↦ rw (e, append_line) (record { log = refl; file = refl })
]

-- An append that fails changes nothing, where the write itself does not tear.
pub append-some :
    (json : Json) (l : Log) (fs : Fs) (faults : Faults) (now reason : String) (req : PublishRequest)
    (x : WalError)
    → faults.write ≡ none
    → (append json l fs faults now reason req).2 ≡ some x
    → Unchanged l fs (append json l fs faults now reason req)
unfolding append
append-some json l fs faults now reason req x f h =
    elim (Bool-cases (ltb_ℤ (pos 0) l.max_entries && leb_ℤ l.max_entries l.depth)) [
      | inl e ↦ rw e (record { log = refl; file = refl })
      | inr e ↦ elim (Option-cases (json.marshal (entry_of now reason req))) [
        | inl n ↦ rw (e, n) (record { log = refl; file = refl })
        | inr (t, m) ↦
            rw (e, m) (append_line-some l fs faults (append_text t "\n") x f (rw (e, m) at h))
      ]
    ]
