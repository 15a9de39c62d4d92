-- ===== src/MemStorage/Tests.antt =====
-- Runs of the piece store, and its theorems at inputs that meet their hypotheses.
use stremio_server_go.Common.{
  ◌++◌, ℕ, ◌≡◌, refl, sym, ap, true, false, List, [], ◌∷◌, none, some, length, arith, ◌⊎◌,
}
use mathlib.Core.Option.{some-injective}
use stremio_server_go.MemStorage.Model.{
  put, MemPiece, MemStorage, top, older, take_out, pop_oldest, pop_oldest_locked, free_locked,
  evict_loop, evict_unparked, evict_locked, reserve, lock_resident, write_at, mark_complete, blank,
  store_at, new_mem_storage, open_torrent, copy_at, piece_evicted,
}
use stremio_server_go.MemStorage.Popping.{resident, IsSound, Popped}
use stremio_server_go.MemStorage.Rounds.{Least, pop_oldest_locked-Popped}
use stremio_server_go.MemStorage.Accounts.{Inv, Evicted, evict_unparked-Evicted}
use stremio_server_go.MemStorage.Marks.{Kept, mark_complete-cases, marked}
use stremio_server_go.MemStorage.Bytes.{Stored, write_at-read_at}
use stremio_server_go.MemStorage.System.{
  System, Thread, reserving, ticked, Step, Reach, here, next, start, opened, reserved, installed,
  stamps,
}
use stremio_server_go.MemStorage.Threads.{IsGood}
use stremio_server_go.MemStorage.Interleaving.{Reach-start-IsGood}

abbrev blank_piece : MemPiece
blank_piece = record {
  torrent = 7;
  length = 4;
  bytes = none;
  complete = false;
  last_used = 0;
  key = 0;
  in_lru = false;
}

-- A torrent of three pieces of 4 bytes in a store of 8.
abbrev torrent_open : MemStorage
torrent_open = record {
  capacity = 8;
  used = 0;
  tick = 0;
  pieces = blank_piece ∷ (blank_piece ∷ (blank_piece ∷ []));
}

abbrev old_buf : List ℕ
old_buf = 9 ∷ (9 ∷ (9 ∷ (9 ∷ [])))

abbrev first_written : MemPiece
first_written = record blank_piece { bytes = some (1 ∷ (2 ∷ (9 ∷ (9 ∷ [])))) }

abbrev one_written : MemStorage
one_written = record torrent_open {
  used = 4;
  pieces = first_written ∷ (blank_piece ∷ (blank_piece ∷ []));
}

one_written_lem : (write_at torrent_open 0 blank_piece old_buf 0 (1 ∷ (2 ∷ []))).0 ≡ one_written
unfolding write_at store_at lock_resident reserve evict_locked evict_unparked evict_loop
    pop_oldest_locked pop_oldest top older copy_at
one_written_lem = refl

opened_lem : open_torrent (new_mem_storage 8) 7 (4 ∷ (4 ∷ (4 ∷ []))) ≡ torrent_open
unfolding open_torrent new_mem_storage blank
opened_lem = refl

-- Two complete pieces, of which the first was read last: its key is stale.
abbrev second_full : MemPiece
second_full = record blank_piece {
  bytes = some (5 ∷ (6 ∷ (7 ∷ (8 ∷ []))));
  complete = true;
  last_used = 2;
  key = 2;
  in_lru = true;
}

abbrev first_full : MemPiece
first_full = record blank_piece {
  bytes = some (1 ∷ (2 ∷ (3 ∷ (4 ∷ []))));
  complete = true;
  last_used = 3;
  key = 1;
  in_lru = true;
}

abbrev full : MemStorage
full = record {
  capacity = 8;
  used = 8;
  tick = 3;
  pieces = first_full ∷ (second_full ∷ (blank_piece ∷ []));
}

-- The least recently used piece is the victim, though its key is not the least.
pops_second : (pop_oldest_locked full).1 ≡ some (1, record second_full { in_lru = false })
unfolding pop_oldest_locked pop_oldest top older take_out
pops_second = refl

evicts_second :
    (reserve full 4).pieces
    ≡ record first_full { key = 3 }
      ∷ (record blank_piece { last_used = 2; key = 2 } ∷ (blank_piece ∷ []))
unfolding reserve evict_locked evict_unparked evict_loop pop_oldest_locked pop_oldest top older
    take_out free_locked
evicts_second = refl

first-IsSound : IsSound 3 first_full
first-IsSound = record {
  verified = λ _. refl;
  available = λ _. refl;
  bounded = omega arith;
  dated = omega arith;
  sized = λ d e. ap length (sym (some-injective (1 ∷ (2 ∷ (3 ∷ (4 ∷ [])))) d e));
}

second-IsSound : IsSound 3 second_full
second-IsSound = record {
  verified = λ _. refl;
  available = λ _. refl;
  bounded = omega arith;
  dated = omega arith;
  sized = λ d e. ap length (sym (some-injective (5 ∷ (6 ∷ (7 ∷ (8 ∷ [])))) d e));
}

blank_piece-IsSound : IsSound 3 blank_piece
blank_piece-IsSound = record {
  verified = λ l. cc;
  available = λ c. cc;
  bounded = omega arith;
  dated = omega arith;
  sized = λ d e. cc;
}

full-Inv : Inv 0 full
unfolding resident
full-Inv = record {
  accounts = refl;
  sound = (first-IsSound, (second-IsSound, (blank_piece-IsSound, tt)));
}

-- Two first writes have reserved their bytes, and the first of them has installed its buffer.
abbrev second_waits : List Thread
second_waits = reserving 1 4 ∷ []

abbrev both_reserved : System
both_reserved = record {
  store = record torrent_open { used = 8 };
  threads = second_waits ++ (reserving 0 4 ∷ []);
}

abbrev first_installed : System
first_installed = record {
  store = record torrent_open {
    used = 8;
    pieces = first_written ∷ (blank_piece ∷ (blank_piece ∷ []));
  };
  threads = second_waits;
}

torrent_reached : Reach (start 8) (record { store = torrent_open; threads = [] })
unfolding open_torrent new_mem_storage blank
torrent_reached = next here (opened 7 (4 ∷ (4 ∷ (4 ∷ []))))

one_reserved :
    Step
      (record { store = torrent_open; threads = [] })
      (record { store = record torrent_open { used = 4 }; threads = reserving 0 4 ∷ [] })
unfolding reserve evict_locked evict_unparked evict_loop
one_reserved = reserved 0 blank_piece refl refl tt

two_reserved :
    Step
      (record { store = record torrent_open { used = 4 }; threads = reserving 0 4 ∷ [] })
      both_reserved
unfolding reserve evict_locked evict_unparked evict_loop
two_reserved = reserved 1 blank_piece refl refl (refl, tt)

one_installed : Step both_reserved first_installed
unfolding store_at copy_at
one_installed =
    installed second_waits [] 0 4 blank_piece old_buf (1 ∷ (2 ∷ [])) 0 refl refl refl refl

first_installed_reached : Reach (start 8) first_installed
first_installed_reached = next (next (next torrent_reached one_reserved) two_reserved) one_installed

Reach-start-IsGood_example : IsGood first_installed
Reach-start-IsGood_example = Reach-start-IsGood 8 first_installed_reached

-- Two readers of a piece take stamps of the clock, and the later stamp is stored first: the piece ends
-- with the earlier one, which its heap key, taken between the two, is above.
abbrev read_twice : MemStorage
read_twice = record full { tick = 5 }

abbrev later_first : System
later_first = record {
  store = record read_twice {
    pieces = record first_full { last_used = 5; key = 5 } ∷ (second_full ∷ (blank_piece ∷ []));
  };
  threads = ticked 0 4 ∷ [];
}

goes_back : Step later_first (record {
  store = record read_twice {
    pieces = record first_full { last_used = 4; key = 5 } ∷ (second_full ∷ (blank_piece ∷ []));
  };
  threads = [];
})
goes_back = stamps [] [] 0 4 (record first_full { last_used = 5; key = 5 }) refl refl

pop_oldest_locked-Popped_example :
    Popped full (pop_oldest_locked full) × Least full.pieces (pop_oldest_locked full).1
pop_oldest_locked-Popped_example =
    pop_oldest_locked-Popped full full-Inv.sound (omega arith, (omega arith, (omega arith, tt)))

evict_unparked-Evicted_example : Evicted 0 full 4 (evict_unparked full 4)
evict_unparked-Evicted_example = evict_unparked-Evicted full 4 full-Inv

mark_complete-cases_example :
    ((second_full.bytes ≡ none) × (mark_complete full 1 second_full ≡ (full, some piece_evicted)))
    ⊎ (Kept 0
          (put (record full { tick = 4 }) 1 (marked 4 second_full))
          (mark_complete full 1 second_full).0
          1
          (marked 4 second_full)
        × ((mark_complete full 1 second_full).1 ≡ none))
mark_complete-cases_example = mark_complete-cases full 1 second_full refl full-Inv

-- The write evicts the second piece to make room for the third.
write_at-read_at_example :
    Stored 2 1 (5 ∷ (6 ∷ [])) (write_at full 2 blank_piece old_buf 1 (5 ∷ (6 ∷ [])))
write_at-read_at_example =
    write_at-read_at full 2 blank_piece old_buf (5 ∷ (6 ∷ [])) 1 refl refl full-Inv (omega arith)
      (omega arith)
