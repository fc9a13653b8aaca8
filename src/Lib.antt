-- ===== src/Lib.antt =====
-- EmexFoundation, a C library of reference-counted objects in the manner of CoreFoundation: a
-- model of its runtime and of its containers, with their theorems.
--
-- The program. Every object starts with a header (EFObject: root type, class, allocator, count).
-- Classes are kept in one table and are found by the identifier in the header; EFRetain and
-- EFRelease change the count, and the last release asks the class for its deinit handler and the
-- allocator for the memory. Numbers, arrays, data and strings are such objects: they take their memory
-- from an allocator and their handlers stand in the table.
--
-- The files.
--   Base       lists, machine integers, bytes, and `Run`: what running C code comes to. `ok` is a
--              value, `fault` an access outside an object (undefined behaviour), `abort` a failed
--              assert. `Returns P` states total correctness: a value, and it satisfies P.
--   Allocator  an allocator as its clients see it: whether a request is served.
--   Class      src/EFRuntime/EFClass.c: extend_if_needed, get_by_id, copy_safely, register are
--              __EFClassTableExtendIfNeeded, __EFClassGetByID, EFClassCopySafely, EFClassRegister.
--              Growth says how many classes the table takes, Lookup what is found in it.
--   Object     src/EFRuntime/EFObject.c and src/EFRuntime/EFAllocator.c: retain, release, equal,
--              create and the dispatch to an allocator, over a memory of objects and allocators.
--              Counts has the single steps, Balance sequences of them, Lifetime an object from its
--              creation to its end, Equality what EFEqual promises, Describe the descriptions.
--   Number     src/EFNumber.c: create, get_value, compare and the equal handler.
--   Array      src/EFArray.c: Model and Bulk have the operations, Holds the list an array stands
--              for, and the others a theorem each on the operation they are named for.
--   Data       src/EFData.c: create, copy_range_to_buffer, set_length, append_buffer.
--   BitWalker  src/EFBitWalker.c and include/EmexFoundation/EFRuntime/EFEndian.h: write and read of
--              fields of bits, over the seek, read and write of a file handle. Swap has the lemma on
--              bytes swapped twice, Roundtrip the theorem.
--   Dictionary src/EFDictionary.c: the number of buckets of a new dictionary.
--   String     src/EFString.c: text as bytes in an encoding. Encoding is __EFStringValidateEncoding;
--              Model has how strings are made and read, Compare what compares them, Edit what changes
--              them, Numbers what reads numbers from them, Split what cuts them into an array.
--              Holds is the text that a string stands for. The others have the theorems: UTF-8 in
--              Utf8, Sequence and Accepts, that UTF-7 ends in Utf7, the rounds of a split in
--              SplitSteps to SplitText, and one or two on the operation that they are named for.
--   Url        src/EFURL.c: a URL as its type and its components. Create is
--              EFURLCreateWithString, Cut its components. Texts, Appends and Path are about the paths
--              copied of it, Parts and Changes about the components appended, deleted and replaced.
--   Uuid       src/EFUUID.c: identifiers of sixteen bytes, and Text their text.
--
-- State. A function that changes an object returns the changed object; NULL is `none` where the
-- code tests for it. A block is the list of its cells, and a cell that was never written is `none`,
-- so that reading one is a fault. An EFIndex is an integer whose sums wrap in 64 bits; a count of
-- items is a natural number, since a block has fewer than 2^60 cells. Callbacks of an array act on
-- a state of their own, handlers of a class on the whole memory. A lock makes a call one step, and
-- so does an atomic count: calls of several threads are the sequences of these steps.
--
-- Parameters, for code that is not of this repository: which requests calloc and realloc serve
-- (none above PTRDIFF_MAX), the callbacks and handlers of clients, the functions behind an
-- allocator, the file behind a handle, and what realpath and getcwd find. The functions of EFString
-- that format text are parameters of what calls them.
--
-- Bounds. Loops over a count are recursion on it; the loop that reserves five cells at a time runs
-- on the number of items left, which is more than the rounds it takes. The loops over UTF-7
-- and UTF-8 run on the number of bytes, of which a round takes one or more. The second loop of a
-- split is given a number of rounds: one for each byte and one more are enough, if the separator
-- is not empty.
--
-- Not modelled: the debug descriptions of numbers, arrays and data (they format text), the
-- formatting and the files of strings, EFStringFind, which the source leaves to be written, what
-- dictionaries hold, mappings, blocks that free themselves, and the parts that call the operating
-- system (files, handles, processes); an array appended to itself.
pub mod Base
pub mod Allocator
pub mod Number
pub mod Class
pub mod Array
pub mod Object
pub mod Data
pub mod String
pub mod Url
pub mod Uuid
pub mod BitWalker
pub mod Dictionary
