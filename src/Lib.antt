-- ===== src/Lib.antt =====
-- Tools of the FIP distribution for Fuzix: the LZW decoder uncompress/uncompress.c and encoder
-- uncompress/compress.c, the disk utility decb/decb.c, the ROM builder decb/romfs.c, the BASIC lister
-- decb/detoken.c, the DriveWire server lwwire/lwwire.c, the boot loader booter/booter.c with its
-- driver booter/dw.c, and the Forth compiler bfc/bfc.c. The programs share no state; the driver and
-- the server talk over a line. Each has a tree of modules here, and Base has the shared lemmas on
-- lists, bits and numbers.
--
-- Uncompress is uncompress/uncompress.c. Reader has `inbyte` and its buffer, Writer `outbyte` and
-- `outflush`, Bits `getbit` and `getsym`, Table the dictionary (`cleardict`, `adddict`, `printsym`,
-- `first`), and Decode has `decompress`: one turn of its loop is `step`, and `run` repeats it. The
-- globals are the record `Decoder`; the label `again` is the place `none` of a step. Lzw is a
-- specification with neither arrays nor buffers: the dictionary is a list of strings, the stream a
-- list of bits, and where the stream ends inside of a first symbol, zeros follow. Refine links the
-- two. `run` has fuel, and rounds for each bit of the file and two more are enough, since each turn
-- takes nine bits or ends the loop; `printsym` and `first` have 65536 rounds, one for each symbol.
-- Integers of 8 and 16 bits wrap around. A `read` returns as much as is left of the file, up to the
-- size asked for; reads and writes that fail, `myalloc` (its result is `mymaxbits`), `main` and the
-- messages are not modelled.
--
-- Compress is uncompress/compress.c. It has its own copy of the buffers and of the arrays, with the
-- same code, so that Reader, Writer and Table of Uncompress stand for them. Bits has `putbit`,
-- `outsym` and `flushbits`, Dictionary `adddict`, `buildstr` and `exist`, and Encode has `compress`;
-- `program` is `main` behind `myalloc`. Codes is a specification of the codes of an input, for a
-- dictionary that does not fill up. `encode_loop` has fuel, one round for each byte and one more;
-- `buildstr` has a round for each place of its buffer, and past them it writes in front of it.
-- `myalloc` (its result is `mymaxbits`, always 9), writes that fail and the messages are not modelled.
--
-- Decb is decb/decb.c. Image has the image file behind `fd`, Fat the table of granules, Chain the
-- chains in it, Store the loops of `put` and `get` over granules, Directory the scan of the
-- directory with the statics of `getentry`, and Commands has the commands; below it Blank and Fresh
-- are about `mkfs`, Entry and Cycle about `put` and `get` through the directory, and Full about a
-- full disk. A command takes an image to a result: `ok`, `fail` for an exit by an error, `fault`
-- for an access outside of an array, `endless` where the fuel runs out. The loop of `put` has more
-- rounds than the file has bytes, that of `get` 70 for the 68 granules, `delchain` and `countchain`
-- 70 too, and a scan of the directory 74, as `getentry` ends it by the 73rd call. The commands dir
-- and map only print; they, the parsing of arguments, and `lseek` and `write` that fail are not
-- modelled.
--
-- Romfs is decb/romfs.c. `convert_sector` is a round of its loop over the 630 sectors of a disk,
-- `romfs` the whole; it uses the images of Decb. Sectors shows what one sector reads and writes,
-- Stored what holds after each round, and Whole reads the ROM back by its map. Arguments, and files
-- that cannot be opened, sought or written, are not modelled.
--
-- Detoken is decb/detoken.c: `mygetc` and its buffer, the words, and `foo`, whose two loops have fuel;
-- as many rounds as the file has bytes are enough, since each round takes a byte. Bytes is about the
-- buffer, Text and Program have the tokenized form of a program and its text. What is printed is a
-- result, and an access outside of the tables of words is `out_of_table`. A failed `read`, the
-- arguments and the messages are not modelled.
--
-- Lwwire is lwwire/lwwire.c. Channel has `lwwire_readdata` and `lwwire_writedata`: what each `read` and
-- `write` finds is a list of events, and a `write` behind the last event succeeds. Drives has the
-- sectors of a drive, with the file at its path as an image; a file is locked if `fopen` of it fails
-- though it exists, and faulty if each `fread` and `fwrite` of it fails, behind a number of bytes
-- below 256, and both stay so. Server has
-- the globals as a record, where a call may end the program; Handlers has the functions
-- `lwwire_proto_*`, and Serve the loop of `main`, a `round` for each operation code. Rounds are
-- limited by fuel: as many as the line has bytes and errors, and one more, are enough. An extension is
-- a parameter; its functions change a state of their own, and nothing else of the server. A silence
-- of 1100 ms is a count. The arguments, `nonblock`, `fseek` and `nanosleep` that fail, and the
-- messages are not modelled.
--
-- Booter is booter/booter.c. File has `iopen`, `bmap` and `iread`, Directory `lookup`, Paths
-- `dopath`, Memory `mseek` and `mwrite`, Mount `mount`, Boot the two loops of `boot`, and Launch
-- `boot` from a path to the jump, with `open`. The device is a parameter, for each number a block
-- or a failure, with the bytes that the failure has stored; so is the key that stops `boot`.
-- Numbers on the disk are big-endian and `int` has 16 bits, as on the machine that it is for,
-- `blkno_t` has 16 bits and `uoff_t` 32. `lookup` has a round for each entry of a directory,
-- `dopath` one for each name, and `boot` one for each section and, in a section, one for each byte;
-- `mwrite` takes a byte at least in each round. The byte behind the entry that `lookup` reads,
-- which `strcmp` may read for a name of 30 bytes, is a parameter. Dw is booter/dw.c, where
-- `dw_trans`, in assembler, is a parameter; Laws there joins it to the server of Lwwire. The
-- console and its commands, the progress display `ticker`, the variables of BASIC and the page
-- registers of the kernel are not modelled.
--
-- Bfc is bfc/bfc.c, the compiler of Forth-like source. Output has the lines that it prints and their
-- text, Input what it reads, Number `strtol`, and State the globals and the two stacks. Dictionary has
-- `mkentry`, `findentry`, `comp_entry` and `do_dict`, Control the words for control structures,
-- Strings those that read on from the input, and Process the loop; an access outside of an array or
-- by a null pointer is the outcome `wild`. `process_file` has fuel, and one round for each byte of
-- the file and one more are enough, as each word takes a byte; the lines of `doasm` are no more than
-- the bytes. Structures has structured source, with its code, the labels of the code, and a machine
-- that runs it; the runtime of a program is a parameter there. Invariant is about the rounds of
-- the loop, with the bounds of the arrays that its steps leave. A `char` is signed, an `int` has 32 bits and a `long` 64. The opening of the files, the
-- messages, and `doinline_dict`, which is switched off, are not modelled.
pub mod Base
pub mod Uncompress
pub mod Compress
pub mod Decb
pub mod Romfs
pub mod Detoken
pub mod Lwwire
pub mod Booter
pub mod Bfc
