-- ===== src/Net/Tests.antt =====
-- The theorems on net/ at concrete requests and responses.
use sabot.Prelude.{ℕ, ◌≡◌, refl, arith, false, [], ◌∷◌}
use sabot.Net.Sample.{Document, sample, sample-IsJson, sample-HasScalars}
use sabot.Net.Response.{document, rapid_json_array, push_all, initialize}
use sabot.Net.Response.Client.{Items, respond, Reads, has_error, respond-Reads}

abbrev numbers : Items ℕ
numbers = Items.unsigned_longs (5 ∷ 0 ∷ 7 ∷ [])

-- The document of a response with these numbers.
abbrev answer : Document
answer =
    Document.add_member (b'r' ∷ b'e' ∷ b's' ∷ b'u' ∷ b'l' ∷ b't' ∷ [])
      (Document.push_back (Document.natural 7) (
        Document.push_back (Document.natural 0)
          (Document.push_back (Document.natural 5) Document.empty_array)))
      Document.empty_object

respond-Reads_example :
    Reads (sample answer) numbers (respond (sample answer) numbers false)
    × (has_error (sample answer) (respond (sample answer) numbers false) ≡ false)
respond-Reads_example =
    respond-Reads (sample answer) numbers false (sample-IsJson _ _) (sample-HasScalars _ _)
      (omega arith, (omega arith, (omega arith, tt)))
      (unfold document rapid_json_array push_all initialize in refl)
