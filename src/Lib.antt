-- ===== src/Lib.antt =====
-- Verification of the concurrency and bookkeeping core of rivulet-engine (stremio-server-go), a
-- streaming server in Go.
--
-- The program serves media over HTTP. internal/api routes requests; internal/engine downloads
-- torrents and keeps their pieces, on disk or in the memory store of memstorage.go; internal/nzb
-- downloads the articles of a Usenet file and assembles them while readers already consume the
-- front; internal/streamproxy relays HLS and DASH segments, whose buffers draw on one byte budget
-- and are kept in a segment cache; internal/media runs ffmpeg jobs, bounded by a slot semaphore.
-- What is modelled here is the shared mutable state of these parts: the records behind their
-- locks, with one function per critical section. For the parts with concurrent callers, step
-- relations let any number of callers interleave those critical sections in any order.
--
-- ByteBudget (internal/streamproxy/membudget.go): `byteBudget` is the record `ByteBudget`, a
-- waiter's channel a number, `closed` the waiters whose channel is closed and who have not yet run
-- on. `acquire` is its first critical section, `acquire_locked`, and for a done context `cancel`;
-- `tryAcquire`, `release` and `notifyLocked` are `try_acquire_locked`, `release_locked` and
-- `notify_locked`. `System` adds the bytes that the callers hold.
--
-- SlotSem (internal/media/slotsem.go): `slotSem` with the limit that `limitFn` returns at each
-- call as an argument, so it may change between calls. `acquire`, `cancel`, `release_first` and
-- `grant_locked` are the critical sections of `acquire` and `release`.
--
-- Assembly (internal/nzb/assembly.go): `Assembly` is the struct with its segment states, layout
-- and written ranges. `Model` has the critical sections of picking, requeuing, completing and
-- failing, `Layout` those of `openSegment` and of `segWriter.Write`, `Readers` those of `Size` and
-- `runIndexLocked`, `System` the workers, each with the segment it holds, and the steps. Here an
-- article body is only its yEnc header and the bytes it wrote; fetching and decoding it is outside
-- the step that completes the segment, so every outcome of them is a step. `writing` is a call of
-- `segWriter.Write`, and `writes` all that such calls have written to the destination.
--
-- MemStorage (internal/engine/memstorage.go): the store's `used`, `tick` and pieces, with
-- `WriteAt`, `ReadAt`, `MarkComplete`, `MarkNotComplete` and `close` as `write_at`, `read_at`,
-- `mark_complete`, `mark_not_complete` and `close`, and below them `reserve`, `evictLocked` and
-- `popOldestLocked`. A piece is named by its position in one list of all pieces; the heap is the
-- set of the pieces that `in_lru` marks, with `top` as the first with the least key.
-- container/heap may choose another of several equal keys, but the store's keys are values of a
-- clock that each completion and read advances. The buffer that the pool hands out is an argument
-- of any content and of the length asked for. `write_at`, `read_at` and `stamp` are whole calls that no
-- other call comes between. `System` divides them as the source's locks do: the reservation of a
-- first `WriteAt`, under `allocMu` and the store's mutex, is a step, and the installation of its buffer
-- with the copy another; the copy of `ReadAt` and each load, add and store of its `stamp` are steps,
-- with a `Thread` for a call that is between two. `MarkComplete`, `MarkNotComplete`, `close` and the
-- eviction in `reserve` run under the store's mutex and are one step each, so that the loads of
-- `lastUsed` in one eviction, which the source does one by one, see the same moment.
--
-- SegCache (internal/streamproxy/cache.go): `segCache` is its list of entries, the index as the
-- set of the keys it has, and the byte count; `put_full`, `get_full` and `sweep` are `putFull`,
-- `getFull` and `sweep` at a given time. Segments reach it from fetches whose buffers ByteBudget
-- bounds. `cacheKey` (SHA-256) and the fetching around the cache are not modelled.
--
-- SegIndex (internal/media/segindex.go): `segIndex` is its map as a list of entries and the total;
-- `note_segment`, `load_locked`, `evict_segments` and `segment_cache_bytes` are the functions on it. The
-- contents of the directory, the locks that are free, the removals that work and the sort are arguments.
--
-- Trackers (internal/engine/trackers.go): `currentTrackers` and the cache file are the record
-- `Trackers`; `do_refresh_trackers` is `doRefreshTrackers`, `init_trackers` the synchronous part of
-- `initTrackers`, and the functions below them have the source's names. A URL is a text; the upstream
-- list, the probes, the trimming and lower-casing of texts and the sort are arguments.
--
-- MustInclude (internal/api/regexcache.go): `mustIncludeLRU` is the list of its entries from the front;
-- `get` and `put` are its critical sections, and `cached_must_include`, `compile_must_include_one` and
-- `must_include_cacheable` the functions around them, over any regular expression packages.
--
-- Yenc (internal/nzb/yenc.go): `decode_line` is the loop over the bytes of a line in `decodeYenc`,
-- and `decode_yenc` the loop over the lines, which `scan_line` takes from the article as the
-- `bufio.Scanner` does, with its limit; `encode_line` is the format that the comment of
-- `DecodeYenc` gives. The decoded articles are what Assembly's segments write.
--
-- NzbSession (internal/nzb/session.go): `assemble_file` is `AssembleFile`, with `limited_write` for
-- `limitedWriter.Write` and `deliver` for the body of its loop. The outcome of each dial and the answer
-- to each BODY command are functions of how many there were before; an answer is the chunks that the
-- decoder passes on and how it ends. Yenc models the decoder itself, Assembly the parallel download.
--
-- FileAt (internal/archive/fileat.go): `fileAt` is its size, time and read-ahead block; what each open
-- of the path finds is a function of the number of opens so far, so the file may be replaced, removed
-- or become unreadable between any two. `read_at`, `refill` and `read_from` are `ReadAt`, `refill` and
-- `readFrom`; `read_spec` is the read from an unchanging list of bytes that they stand for.
--
-- FtpPool (internal/ftpstream/pool.go): `ftpPool` and `ftpPoolIdle` are the record `FtpPool`, and
-- `ftp_pool_get`, `ftp_pool_put` and `ftp_pool_evict` the operations on it at a given time, with the
-- sessions that they discard as results. `Lease` is `ftpLease` with the session's connections, and its
-- steps those of `open`, of `ftpReadCloser.Close` (internal/ftpstream/ftpstream.go) and of the hook that
-- `bind` registers, in any order. `Meta` has the caches of SIZE answers and of pre-flight
-- verdicts. A `range` over a Go map goes in the order of the list that stands for the map.
--
-- Common: lists, texts and integers over the native numbers, Boolean tests, sums over lists, and the
-- binary search of sort.Search, which the source calls.
--
-- Numbers: int and int64 values that cannot be negative are ℕ, and those that can (the fields of
-- an untrusted yEnc header) are ℤ. No operation modelled comes near 2^63: sizes are bounded by
-- files, counts by segments, waiters and slots. Where a Go subtraction could only pass 0 from a
-- state that the invariants exclude, the model's subtraction stops at 0.
--
-- Fuel: `search_loop` takes the length of the interval, which every round at least halves; the
-- picking loop runs one round per segment, as in the source; `pop_oldest` takes one round more
-- than there are pieces, each of which can be stale once; `evict_loop` likewise, as each round but
-- the last empties a slot of the heap. `read_loop` takes two rounds for each byte of a read and two
-- more, since after a refill the block holds the byte wanted next; `make_room` takes one round for each
-- idle session, which each round but the last takes out; `shrink` of MustInclude takes one for each
-- entry. The theorems of these loops are about the fuel that the
-- callers give.
--
-- Not modelled: networking, HTTP handlers, processes and files, whose code has little state of its
-- own and calls the standard library throughout; timers; and the code of third-party packages. The
-- Go scheduler and memory model are represented by the interleaving of critical sections.
pub mod Assembly
pub mod ByteBudget
pub mod Common
pub mod FileAt
pub mod FtpPool
pub mod MemStorage
pub mod MustInclude
pub mod NzbSession
pub mod SegCache
pub mod SegIndex
pub mod SlotSem
pub mod Trackers
pub mod Yenc
