-- ===== src/Wal/Replay/Blocked.antt =====
-- What Replay of internal/wal/wal.go does to a file with a line that does not fit its buffer.
use Prim.Native.String.{String}
use deepiri_sugar_glider.Base.{List, ◌++◌, ◌≡◌, length, All, none}
use deepiri_sugar_glider.Base.Int.{ℤ}
use deepiri_sugar_glider.Wal.{Json}
use deepiri_sugar_glider.Wal.Replay.{Callback, Replayed}
use deepiri_sugar_glider.Wal.Replay.Order.{Interleave, Delivers, Ending}

module _ {W : Type 0} (json : Json) (max : ℤ) (publish : Callback W) where
  -- The lines of the file up to the first that does not fit the buffer have been gone through as in Drained;
  -- `unread` are that line and those after it.
  pub record Blocked (lines : List String) (w : W) (r : Replayed W) : Type 0 where
    pub reached : List String
    pub done : List String
    pub bad : List String
    pub later : List String
    pub unread : List String
    pub last : W
    pub split : lines ≡ (reached ++ later) ++ unread
    pub merge : Interleave reached done bad
    pub bad_lines : All (λ line. json.unmarshal line ≡ none) bad
    pub count : r.count ≡ length done
    pub delivers : Delivers json max publish w done last
    pub ending : Ending json max publish last r.count later r.world
