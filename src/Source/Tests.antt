-- ===== src/Source/Tests.antt =====
-- Runs of the reader of internal/source/source.go.
use streamly.Prelude.{ℕ, ◌≡◌, refl, false, none, some, List, [], ◌∷◌, arith}
use streamly.Prelude.Text.{codes}
use streamly.Prelude.Signed.{negsuc}
use streamly.Source.Media.{
  content_range_total, Response, MediaSource, eof, Round, got, note_size, discard, open_body,
  ensure_body, after_end, after_nothing, turn, read, seek, seek_end,
}
use streamly.Source.Media.Honest.{IsHonestResponse, IsAt}
use streamly.Source.Media.Rounds.{Delivers, read-Delivers}
use streamly.Source.Media.Retries.{IsAnswer, read-IsAnswer}
use streamly.Source.Media.Seek.{Lands, asked, seek-Lands}

abbrev file : List ℕ
file = 10 ∷ (20 ∷ (30 ∷ (40 ∷ (50 ∷ []))))

-- The server ignores the range, and sends the whole file.
abbrev whole : Response
whole = record { status = 200; content_length = some 5; content_range = []; bytes = file }

abbrev source : MediaSource
source = record { url = codes "u"; offset = 2; size = some 5; body = some []; bytes_read = 2 }

-- First the connection ends early, then the file is sent from its start.
abbrev broken_off : Round
broken_off = record {
  done_first = false;
  response = none;
  done_open = false;
  count = 0;
  read_err = some eof;
  done_read = false;
  fresh = some (codes "v");
}

abbrev replayed : Round
replayed = record broken_off { response = some whole; count = 2; read_err = none }

abbrev cut_off : Round
cut_off = record replayed { read_err = some eof; count = 0 }

reads_on : (read 4 3 source (broken_off ∷ (replayed ∷ []))).0 ≡ got (30 ∷ (40 ∷ []))
unfolding note_size discard open_body ensure_body after_end after_nothing turn read
reads_on = refl

total_of_range : content_range_total (codes "bytes 2-4/ 5") ≡ some 5
unfolding content_range_total
total_of_range = refl

whole-IsHonestResponse : IsHonestResponse file 2 whole
unfolding content_range_total
whole-IsHonestResponse = record {
  whole = λ _. ([], refl);
  range = λ e. absurd (e refl);
  whole_size = λ _. refl;
  total = λ e. record {};
  range_size = λ e. absurd (omega arith);
}

source-IsAt : IsAt file 2 2 source
source-IsAt = record {
  at = refl;
  counted = refl;
  serves = (30 ∷ (40 ∷ (50 ∷ [])), refl);
  sized = refl;
}

read-Delivers_example :
    Delivers file 2 2 4
      (read 4 3 source (broken_off ∷ (replayed ∷ []))).0
      (read 4 3 source (broken_off ∷ (replayed ∷ []))).1
read-Delivers_example =
    read-Delivers file 2 2 4 3 source (broken_off ∷ (replayed ∷ []))
      (record {}, (whole-IsHonestResponse, record {})) source-IsAt

read-IsAnswer_example : IsAnswer (read 4 1 source (broken_off ∷ (cut_off ∷ []))).0
read-IsAnswer_example =
    read-IsAnswer 4 1 source (broken_off ∷ (cut_off ∷ [])) (omega arith)
      ((λ _ e. cc e), (λ _ _ _. ((λ _ e. cc e), (λ _ _ _. record {}))))

seek-Lands_example :
    Lands file 2 2 (asked file 2 (negsuc 0) seek_end) (seek source (negsuc 0) seek_end none)
seek-Lands_example = seek-Lands file 2 2 source (negsuc 0) seek_end none (record {}) source-IsAt
