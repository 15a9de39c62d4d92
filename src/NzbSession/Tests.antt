-- ===== src/NzbSession/Tests.antt =====
-- Downloads on small inputs, and the theorems at concrete ones.
use stremio_server_go.Common.{
  ℕ, ◌+◌, ◌%◌, ◌<◌, ◌≡◌, refl, ap, Bool, true, false, List, [], ◌∷◌, none, some, ◌==◌, length, map,
  ◌⊎◌, inl, inr, arith,
}
use stremio_server_go.Common.Weigh.{All}
use stremio_server_go.Common.Int.{pos}
use stremio_server_go.NzbSession.Model.{
  lost, exceeded, complete, broken, Answer, File, Session, file, size_cap, limited_write,
  or_exceeded, pass, taken, assemble_file,
}
use stremio_server_go.NzbSession.Delivering.{join}
use stremio_server_go.NzbSession.Files.{Assembled, assemble_file-Assembled}
use stremio_server_go.NzbSession.Surviving.{assemble_file-Reliable}
use stremio_server_go.NzbSession.Fitting.{accepting, Reliable}

unfoldable article : ℕ → List ℕ
article id = id ∷ ((id + 1) ∷ [])

-- The article from every second answer.
unfoldable answer_of : Bool → ℕ → Answer
answer_of true id = record { chunks = (id ∷ []) ∷ (((id + 1) ∷ []) ∷ []); ending = complete }
answer_of false id = record { chunks = []; ending = broken lost }

unfoldable flaky : ℕ → ℕ → Answer
unfolding answer_of
flaky k id = answer_of (k % 2 == 1) id

abbrev movie : File
movie = record { name = 5; size = pos 4; segments = 30 ∷ (40 ∷ []) }

abbrev idle_session : Session
idle_session = record { files = movie ∷ []; client = false; dials = 0; bodies = 0 }

answer_of-either :
    (b : Bool) (id : ℕ)
    → ((answer_of b id).ending ≡ complete)
      ⊎ (answer_of b id ≡ record { chunks = []; ending = broken lost })
unfolding answer_of
answer_of-either true id = inl refl
answer_of-either false id = inr refl

answer_of-article :
    (b : Bool) (id : ℕ)
    → (answer_of b id).ending ≡ complete
    → join (answer_of b id).chunks ≡ article id
unfolding answer_of article
answer_of-article true id e = refl
answer_of-article false id e = absurd cc

answer_of-filled : (b : Bool) (id : ℕ) → All (λ c. 0 < length c) (answer_of b id).chunks
unfolding answer_of
answer_of-filled true id = (omega arith, (omega arith, tt))
answer_of-filled false id = tt

answer_of-again :
    (b c : Bool) (id : ℕ)
    → (b ≡ false → c ≡ true)
    → answer_of b id ≡ record { chunks = []; ending = broken lost }
    → (answer_of c id).ending ≡ complete
unfolding answer_of
answer_of-again true c id n e = let f : complete ≡ broken lost = ap (λ a. a.ending) e in absurd cc
answer_of-again false true id n e = refl
answer_of-again false false id n e = let f : false ≡ true = n refl in absurd cc

next_odd : (k : ℕ) → (k % 2 == 1) ≡ false → ((k + 1) % 2 == 1) ≡ true
next_odd k e = ground arith

flaky-Reliable : Reliable flaky article
unfolding flaky
flaky-Reliable = record {
  either = λ k id. answer_of-either (k % 2 == 1) id;
  same = λ k id. answer_of-article (k % 2 == 1) id;
  filled = λ k id. answer_of-filled (k % 2 == 1) id;
  again = λ k id. answer_of-again (k % 2 == 1) ((k + 1) % 2 == 1) id (next_odd k);
}

assemble_file-Reliable_example :
    ((assemble_file (λ _. true) flaky accepting idle_session 5).2 ≡ none)
    × ((assemble_file (λ _. true) flaky accepting idle_session 5).1.out
        ≡ join (map article (30 ∷ (40 ∷ []))))
unfolding article size_cap file
assemble_file-Reliable_example =
    assemble_file-Reliable (λ _. true) flaky article flaky-Reliable idle_session 5 movie (λ _. refl)
      refl (omega arith)

assemble_file-Assembled_example :
    Assembled flaky article movie
      (assemble_file (λ k. k == 0) flaky (λ out p. some (1, false)) idle_session 5)
unfolding file
assemble_file-Assembled_example =
    assemble_file-Assembled (λ k. k == 0) flaky (λ out p. some (1, false)) article idle_session 5
      movie flaky-Reliable.same refl

-- The second article does not fit the declared size.
cut_at_limit :
    limited_write accepting (record { limit = 3; written = 2; out = 1 ∷ (2 ∷ []) }) (3 ∷ (4 ∷ []))
    ≡ (record { limit = 3; written = 3; out = 1 ∷ (2 ∷ (3 ∷ [])) }, some exceeded)
unfolding limited_write pass taken or_exceeded
cut_at_limit = refl
