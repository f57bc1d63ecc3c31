-- ===== src/Lib.antt =====
-- Fast System VerSioning (fsvs): the core of the client.
--
-- fsvs versions whole systems in a subversion repository. The parts that are modelled are those whose
-- state and results do not live in libsvn, gdbm or the file system:
--
-- * Cache (src/cache.c, src/cache.h): the caches that the callers of cch__find and cch__add fill, with
--   the last used slots kept in a ring behind `lru`. Cache.antt has one function for each of the source:
--   entry_set for cch__entry_set, add for cch__add, and so on. The allocator of src/helper.c is an
--   argument: which sizes it gives, and what stands in the memory. A pointer is a slot: NULL, live or
--   freed. Cache/Room is about the memory of one entry, Cache/Lookup about finding, Cache/Recency about
--   the order of use, Cache/Store about storing by id.
-- * Warnings (src/warnings.c): the table of warnings, the option parser wa__set_warn_option and
--   wa__split_process, wa__warn and wa__summary. Whether writing a text succeeds is an argument.
-- * Url (src/url.c): the list of URLs. Url/Parse is url__parse, with strtol and strtoull as arguments and
--   one round of its loop for each character and one more as fuel; insert_or_replace takes what it gives,
--   with the flags of the attributes seen. Url/Numbers is url___set_internal_nums; its
--   fd_set is the list of the bits that are set, of FD_SETSIZE bits; the search for a free bit has a round for each
--   bit that is left, and the use of a bit behind the end is an outcome of its own.
-- * EstOps (src/est_ops.c): FreeList is the memory of entries (ops__allocate, the end of
--   ops__free_entry), with addresses counted in entries; Changes is ops__stat_to_action; Correlate is
--   ops__correlate_dirs, with the comparison of names, strcoll, as an argument; Selection is
--   ops__set_todo_bits; Directory is ops__free_marked, ops__delete_entry and ops__new_entries on the
--   arrays of a directory; Line is ops__save_1entry and ops__load_1entry, with printf and strtoul of
--   Prelude/Numerals, whose digits have the number itself as a bound for the rounds; Paths is ops__build_path
--   behind its cache. MKDEV, MAJOR and MINOR are arguments. The parts meet in the directory tree: the actions walk it by Correlate and
--   Selection, find changes by Changes, and give entries back to FreeList.
-- * Options (src/options.c): opt__parse_option, opt__parse and opt__load_env on a list of settings, each
--   with its parser, and those parsers that read words or store a text. getenv, and whether there is
--   memory for a copy, are arguments. i_val is given by its 32 bits.
-- * Actions (src/actions.c): finding the action of a command line by its name or a beginning of it, and
--   the test that an entry passes before the callback of the action sees it.
-- * Ignore (src/ignore.c): Translate makes a regular expression of a shell pattern (the loop of
--   ign__compile_pattern, with one round for each character and one more as fuel, and
--   ign___translate_bracketed_expr with the room that is left in its buffer). Specification and Parse are
--   ign___init_pattern_into, which compiles patterns by Translate; strtoul, sscanf, pcre2_compile and wa__warn
--   are arguments. Pattern is the test of one pattern with an entry, and Match is ign__is_ignore, the walk
--   over the list; pcre2_match, the creation of its data, and the reading of a group are arguments. `status`
--   is threaded through the loop as in the source, as tests leave it as it was. The fuel of the loop about
--   pcre2_match is a bound on the size of the match data, divided by the step of five.
-- * Checksum (src/checksum.c): Manber cuts a stream into blocks (cs___end_of_block, cs___update_manber) with
--   the constants of src/interface.h; an MD5 context is the list of the bytes that it was updated with, and
--   MD5 is an argument. The fuel of cs___update_manber is two more than the number of bytes. Manber/Machine is
--   the same for one byte at a time. Hex is the text form of digests. Manber/Cuts is
--   about the cutting into buffers, Manber/Tiles about the positions of blocks, Manber/Full about the file's MD5.
-- * Path (src/helper.c): hlp__pathcopy. `dest` is kept back to front, and the four pointers into the arguments
--   are the characters of the arguments in a row; one round for each character and one more is the fuel.
-- * Hash (src/hash_ops.c): the lists of pointers of hsh__insert_pointer and hsh__list_get, and the registered
--   deletions. A file of gdbm is an argument with its laws; an error of gdbm ends the operation.
-- * CopyMove (src/cp_mv.c): the text of a copy source, cm__get_source over the parents of an entry, and the
--   rating of similar directories by the events of EstOps/Correlate. The file of the sources is an argument.
-- * Waa (src/waa.c): waa___find_position, with as many rounds as there are elements.
--
-- Prelude holds what these share: lists with native lengths, C strings as lists of bytes, numbers as text, tests.
-- Each component's Tests module runs its functions on small input.
--
-- Numbers are natural numbers; where a C int could wrap and the code does not rule that out, the model
-- says so (the counters of Warnings are modulo 2^32). Times, sizes and ids are compared, and written
-- and read as text; a 64 bit number with a sign is given by its bits there.
--
-- A device number of a pattern is compared as a natural number below 2^31. Memory for a copy of a name or a
-- pattern is taken to be there in Ignore, Checksum, Path and Url/Parse.
--
-- Not modelled: the options that are numbers or paths, the position of new ignore patterns in the list and
-- their storage, the comparison of a file with its stored blocks; sessions, commit, update and the other
-- actions, which are sequences of calls of libsvn; opening and closing hash files; reading directories; output.
-- Of src/waa.c and src/cp_mv.c only what is named above is modelled, and of ops__build_path what stands behind its
-- cache. That the line of an entry is written to the file is not part of ops__save_1entry.
pub mod Actions
pub mod Cache
pub mod Checksum
pub mod CopyMove
pub mod EstOps
pub mod Hash
pub mod Ignore
pub mod Options
pub mod Path
pub mod Prelude
pub mod Url
pub mod Waa
pub mod Warnings
