-- ===== src/Wal/Bounds.antt =====
-- The two limits of the log in internal/wal/wal.go, over an append.
use Prim.Native.String.{String, len, ◌++◌ as append_text}
use text.Mathlib.TextPositions.{len-append}
use deepiri_sugar_glider.Base.{
  ℕ, ◌+◌, true, false, ◌≡◌, refl, ap, arith, ◌&&◌, inl, inr, Bool-cases, Option-cases, Option, none,
  some, ok, err, ◌⊎◌, if◌then◌else◌,
}
use deepiri_sugar_glider.Base.Int.{ℤ, pos, leb_ℤ, ltb_ℤ, ◌+ℤ◌, ◌≤ℤ◌}
use deepiri_sugar_glider.RedisStreams.{PublishRequest}
use deepiri_sugar_glider.Wal.{
  Json, WalError, io_failed, wal_disk_full, Fs, content, content_of, Faults, Log, file_size,
  over_bytes, write_line, append_line, append,
}
use deepiri_sugar_glider.Wal.Depth.{write_to_self, entry_of}

record Grew (l : Log) (fs : Fs) (r : Log × Fs × Option WalError) (line : String) : Type 0 where
  depth : r.0.depth ≡ l.depth +ℤ pos 1
  text : content r.1 l.path ≡ append_text (content fs l.path) line

write_line-Grew :
    (l : Log) (fs : Fs) (faults : Faults) (line : String)
    → (write_line l fs faults line).2 ≡ none
    → Grew l fs (write_line l fs faults line) line
unfolding write_line
write_line-Grew l fs faults line h = elim (Bool-cases faults.open_file) [
  | inl o ↦ cc (rw o at h)
  | inr o ↦ elim (Option-cases faults.write) [
    | inr (part, w) ↦ cc (rw (o, w) at h)
    | inl w ↦
        rw (o, w)
          (record {
            depth = refl;
            text = ap content_of (write_to_self fs l.path (append_text (content fs l.path) line));
          })
  ]
]

append_line-Grew :
    (l : Log) (fs : Fs) (faults : Faults) (line : String)
    → (append_line l fs faults line).2 ≡ none
    → (over_bytes l fs faults line ≡ none) × Grew l fs (append_line l fs faults line) line
unfolding append_line
append_line-Grew l fs faults line h = elim (Option-cases (over_bytes l fs faults line)) [
  | inr (e, over) ↦ cc (rw (over, append_line) at h)
  | inl fits ↦ (
    fits,
    rw (fits, append_line) (write_line-Grew l fs faults line (rw (fits, append_line) at h)),
  )
]

-- What an append without an error has passed and done.
record Appended (json : Json) (l : Log) (fs : Fs) (faults : Faults) (r : Log × Fs × Option WalError)
    : Type 0 where
  room : (ltb_ℤ (pos 0) l.max_entries && leb_ℤ l.max_entries l.depth) ≡ false
  line : String
  fits : over_bytes l fs faults line ≡ none
  grew : Grew l fs r line

append-Appended :
    (json : Json) (l : Log) (fs : Fs) (faults : Faults) (now reason : String) (req : PublishRequest)
    → (append json l fs faults now reason req).2 ≡ none
    → Appended json l fs faults (append json l fs faults now reason req)
unfolding append
append-Appended json l fs faults now reason req h =
    elim (Bool-cases (ltb_ℤ (pos 0) l.max_entries && leb_ℤ l.max_entries l.depth)) [
      | inl full ↦ cc (rw full at h)
      | inr room ↦ elim (Option-cases (json.marshal (entry_of now reason req))) [
        | inl m ↦ cc (rw (room, m) at h)
        | inr (t, m) ↦
            let line = append_text t "\n" in
            let (fits, grew) = append_line-Grew l fs faults line (rw (room, m) at h) in
            rw (room, m) (record { room = room; line = line; fits = fits; grew = grew })
      ]
    ]

room_for_one :
    (d m : ℤ) → ltb_ℤ (pos 0) m ≡ true → (ltb_ℤ (pos 0) m && leb_ℤ m d) ≡ false → d +ℤ pos 1 ≤ℤ m
unfolding ◌+ℤ◌
room_for_one d m limited h = ground arith

-- The size that the check goes by is that of the file.
file_size-len :
    (l : Log) (fs : Fs) (faults : Faults)
    → (file_size l fs faults ≡ err io_failed)
      ⊎ (file_size l fs faults ≡ ok (len (content fs l.path)))
unfolding file_size
file_size-len l fs faults = elim (Bool-cases (faults.stat l.path)) [
  | inl e ↦ inl (rw (e, file_size))
  | inr e ↦ elim (Option-cases (fs l.path)) [
    | inl n ↦ inr (rw (e, file_size, n))
    | inr (t, n) ↦ inr (rw (e, file_size, n) (ap (λ o. ok (len (content_of o))) n))
  ]
]

bytes_fit :
    (m : ℤ) (n : ℕ) → (if ltb_ℤ m (pos n) then some wal_disk_full else none) ≡ none → pos n ≤ℤ m
bytes_fit m n h = ground arith

over_bytes-le :
    (l : Log) (fs : Fs) (faults : Faults) (line : String)
    → ltb_ℤ (pos 0) l.max_bytes ≡ true
    → over_bytes l fs faults line ≡ none
    → pos (len (content fs l.path) + len line) ≤ℤ l.max_bytes
unfolding over_bytes
over_bytes-le l fs faults line limited h = elim (file_size-len l fs faults) [
  | inl e ↦ cc (rw (limited, e, over_bytes) at h)
  | inr e ↦ bytes_fit l.max_bytes _ (rw (limited, e, over_bytes) at h)
]

-- After an append that succeeds, the counter of a log with a limit on its entries is no more than that.
pub append-max_entries :
    (json : Json) (l : Log) (fs : Fs) (faults : Faults) (now reason : String) (req : PublishRequest)
    → ltb_ℤ (pos 0) l.max_entries ≡ true
    → (append json l fs faults now reason req).2 ≡ none
    → (append json l fs faults now reason req).0.depth ≤ℤ l.max_entries
append-max_entries json l fs faults now reason req limited h =
    let a = append-Appended json l fs faults now reason req h in
    rw a.grew.depth (room_for_one l.depth l.max_entries limited a.room)

-- After an append that succeeds, the file of a log with a limit on its bytes has no more than that.
pub append-max_bytes :
    (json : Json) (l : Log) (fs : Fs) (faults : Faults) (now reason : String) (req : PublishRequest)
    → ltb_ℤ (pos 0) l.max_bytes ≡ true
    → (append json l fs faults now reason req).2 ≡ none
    → pos (len (content (append json l fs faults now reason req).1 l.path)) ≤ℤ l.max_bytes
append-max_bytes json l fs faults now reason req limited h =
    let a = append-Appended json l fs faults now reason req h in
    rw (a.grew.text, len-append) (over_bytes-le l fs faults a.line limited a.fits)
