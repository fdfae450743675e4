-- ===== src/Channel/Tests.antt =====
-- The channel's theorems at a channel for two blocks of two bytes.
use mathlib.Core.List.{Sublist}
use tit_co.Base.{ℕ, ◌≡◌, ◌⊎◌, refl, none, some, map, replicate, List, [], ◌∷◌, ◌++◌, arith}
use tit_co.Base.Word.{minus_one}
use tit_co.CoState.{k_init}
use tit_co.Channel.{Channel, done, create, read, write}
use tit_co.Base.Bytes.{read_block, write_block}
use tit_co.Channel.Waiters.{pop_live, live}
use tit_co.Channel.View.{Shape, IsValid, view, readers, create-IsValid}
use tit_co.Channel.Writes.{Wrote, write_refines}
use tit_co.Channel.Taken.{Reads}
use tit_co.Channel.Reads.{read_refines}
use tit_co.Channel.History.{Op, writes, reads, run, answer}
use tit_co.Channel.Fifo.{begun, fifo_answers}
use tit_co.Channel.Expiry.{Event, calls, expires, expire, passes, returned}
use tit_co.Channel.Timed.{ordered_answers}

abbrev empty_shape : Shape
empty_shape = record { cap = 2; first = 0; count = 0 }

abbrev memory : List ℕ
memory = 9 ∷ 9 ∷ 9 ∷ 9 ∷ []

abbrev fresh : Channel
unfolding create
fresh = create 4 2 minus_one memory

-- Three writes, of which the last waits, and a read.
abbrev wrote_three : Channel
unfolding create write read_block write_block pop_live
wrote_three =
    (write (write (write fresh 1 k_init (1 ∷ 2 ∷ [])).0 1 k_init (3 ∷ 4 ∷ [])).0 2 k_init
      (5 ∷ 6 ∷ [])).0

view-three :
    view (record { cap = 2; first = 0; count = 2 }) wrote_three
    ≡ (1 ∷ 2 ∷ []) ∷ (3 ∷ 4 ∷ []) ∷ (5 ∷ 6 ∷ []) ∷ []
unfolding create write read_block write_block pop_live live
view-three = refl

read-three : (read wrote_three 3 k_init).1 ≡ done (1 ∷ 2 ∷ []) (some 2)
unfolding create write read read_block write_block pop_live
read-three = refl

created-IsValid : IsValid empty_shape (create 4 2 minus_one memory)
created-IsValid =
    (create-IsValid 2 2 minus_one memory (omega arith) (omega arith) (omega arith) refl).0

write_refines_example :
    (g' : Shape) × IsValid g' (write (create 4 2 minus_one memory) 1 k_init (1 ∷ 2 ∷ [])).0
    × Wrote empty_shape
        (create 4 2 minus_one memory)
        (1 ∷ 2 ∷ [])
        g'
        (write (create 4 2 minus_one memory) 1 k_init (1 ∷ 2 ∷ [])).0
        (write (create 4 2 minus_one memory) 1 k_init (1 ∷ 2 ∷ [])).1
unfolding create
write_refines_example =
    write_refines empty_shape (create 4 2 minus_one memory) 1 (1 ∷ 2 ∷ []) created-IsValid refl

read_refines_example :
    (g' : Shape) × IsValid g' (read (create 4 2 minus_one memory) 1 k_init).0
    × Reads empty_shape
        (create 4 2 minus_one memory)
        g'
        (read (create 4 2 minus_one memory) 1 k_init).0
        (read (create 4 2 minus_one memory) 1 k_init).1
read_refines_example = read_refines empty_shape (create 4 2 minus_one memory) 1 created-IsValid

-- One reads before anybody has written, two write, and two read.
abbrev talk : List Op
talk =
    reads 7 k_init
    ∷ writes 1 k_init (1 ∷ 2 ∷ [])
    ∷ writes 2 k_init (3 ∷ 4 ∷ [])
    ∷ reads 8 k_init
    ∷ reads 9 k_init
    ∷ []

talk-answers :
    (let h = run (begun 2 2 minus_one memory) talk in map (answer h.channel) h.reads)
    ≡ some (1 ∷ 2 ∷ []) ∷ some (3 ∷ 4 ∷ []) ∷ none ∷ []
unfolding run answer create read_block write_block pop_live
talk-answers = refl

fifo_answers_example :
    let h = run (begun 2 2 minus_one memory) talk in
    (g : Shape) × IsValid g h.channel
    × (given : List (List ℕ)) × (n : ℕ) × (map (answer h.channel) h.reads
        ≡ map some given ++ replicate n none)
    × (given ++ view g h.channel ≡ h.written)
    × ((n ≡ 0) ⊎ (given ≡ h.written))
fifo_answers_example =
    fifo_answers 2 2 minus_one memory talk (omega arith) (omega arith) (omega arith) refl
      (refl, ((refl, refl), ((refl, refl), (refl, (refl, tt)))))

-- The first reader gives up before anybody writes; of three writers on a full channel of one block,
-- the second gives up too.
abbrev late : List Event
late =
    calls (reads 7 k_init)
    ∷ expires 0
    ∷ calls (writes 1 k_init (1 ∷ 2 ∷ []))
    ∷ calls (writes 2 k_init (3 ∷ 4 ∷ []))
    ∷ calls (writes 3 k_init (5 ∷ 6 ∷ []))
    ∷ expires 1
    ∷ calls (reads 8 k_init)
    ∷ calls (reads 9 k_init)
    ∷ []

late-returned :
    (let h = passes (begun 1 2 20 (9 ∷ 9 ∷ [])) late in returned h.channel h.reads)
    ≡ (1 ∷ 2 ∷ []) ∷ (5 ∷ 6 ∷ []) ∷ []
unfolding passes expire returned answer create read_block write_block pop_live
late-returned = refl

ordered_answers_example :
    let h = passes (begun 1 2 20 (9 ∷ 9 ∷ [])) late in
    (g : Shape) × IsValid g h.channel
    × Sublist (returned h.channel h.reads ++ view g h.channel) h.written
    × ((readers g h.channel ≡ []) ⊎ (view g h.channel ≡ []))
ordered_answers_example =
    ordered_answers 1 2 20 (9 ∷ 9 ∷ []) late (omega arith) (omega arith) (omega arith) refl
      (refl, (tt, ((refl, refl), ((refl, refl), ((refl, refl), (tt, (refl, (refl, tt))))))))
