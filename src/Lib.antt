-- ===== src/Lib.antt =====
-- A verification library for REXX/370, the REXX interpreter for MVS.
--
-- The interpreter keeps the variables of a program in pools (src/irx#vpol.c), one for each procedure,
-- linked to the caller's; computes in decimal (src/irx#arith.c) on the strings that the variables hold;
-- and runs blocks, loops and calls with a label table and a stack of frames (src/irx#ctrl.c). The parser
-- and the bytecode machine are the clients of these three, and call built-in functions, which check their
-- arguments with src/irx#bif.c. The tokenizer (src/irx#tokn.c) turns the source into the tokens that the
-- parser and the label scan read, and all storage comes from irxstor (src/irx#stor.c). Paths are from the repository's root.
--
-- VarPool models src/irx#vpol.c and include/irxvpool.h. A scope is the list of pools from the running
-- procedure's outwards (`struct irx_vpool` and its `parent`); a pool is its buckets of entries, and an
-- entry has an address of its own, so that `exposed_ref` is an address in the parent and may dangle.
--   VarPool/Types     the data, primes and the djb2 hash, which wraps at 32 bits as `unsigned long` does
--   VarPool/Table     buckets, lookup, maybe_resize, link_entry, unlink_entry, vpool_create
--   VarPool/Scope     exposed stems, resolve_ref, vpool_get_buf, vpool_get, vpool_exists
--   VarPool/Update    vpool_set_buf, vpool_set, vpool_drop, vpool_drop_stem_all
--   VarPool/Expose    vpool_expose_var, vpool_expose_stem
--   VarPool/Cache     vpool_get_cached and its slots
--   VarPool/Create    what a new pool is
--   VarPool/Iterate   vpool_next_reset and vpool_next
-- `VarPool.Scope.Slot` is the abstract view: the place that a name denotes in a chain of pools.
-- `VarPool.Update.Only` says which entry of which pool an assignment or a drop may change.
-- Storage is an argument: a function from the number of a request within a call to the address that
-- the allocator answers with, or none.
--
-- Arith models src/irx#arith.c but for irx_arith_format: what the operators, the comparisons and TRUNC run,
-- and numbers from digits and as digits. A number is its sign, its exponent and its list of
-- digits. The exponent that is read from a text wraps around as a 32-bit int does, and the exponent of a power
-- as a long; the exponents that sums, products and quotients of numbers have are unbounded integers, so the
-- overflow of C's int is not modelled there. `ExponentFits` bounds the exponents far below it.
--   Arith/Digits      the loops over digits and work arrays, and what they do to the coefficient
--   Arith/Number      num_strip_trailing, num_strip_leading, num_round
--   Arith/Magnitude   mag_compare, add_magnitudes, num_mul
--   Arith/Subtract    sub_magnitudes, whose cells go below zero
--   Arith/Ops         num_addsub
--   Arith/Divide      num_div_impl
--   Arith/Text        num_from_str, lstr_to_num, num_format, for an ASCII host
--   Arith/Fixed       num_grow to num_emit_fixed, and irx_arith_trunc
--   Arith/Digitwise   irx_arith_from_digits, irx_arith_to_digits
--   Arith/Public      num_power, num_to_lstr, irx_arith_op, irx_arith_compare
-- `num_alloc` and `work_alloc` are the Booleans of `Grants`, `OpGrants` and `TruncGrants`. The loop of a
-- power runs as often as the exponent says, and the reduction of a quotient digit as often as the digit is
-- high.
--
-- Ctrl models src/irx#ctrl.c and include/irxctrl.h: the label scan and search, the stack of frames, and
-- the storage of both, on a heap that counts the bytes in use and may refuse any request.
--   Ctrl/Types, Ctrl/Labels, Ctrl/Stack, Ctrl/Setup
-- The characters of the machine (`toupper`, the code of a colon) are arguments.
--
-- Bif models the argument checks of src/irx#bif.c, with the subcode that a failed check raises. LONG_MAX and
-- the characters are arguments.
--
-- Stor models src/irx#stor.c as it is built for MVS: irxstor, stor_getmain and stor_freemain over a storage
-- of words. GETMAIN and the key of the task are arguments; what FREEMAIN is asked for is recorded.
--   Stor/Prefix, Stor/Release
--
-- Tokn models src/irx#tokn.c and include/irxtokn.h, the tokenizer whose tokens the parser and the label scan
-- read, as it is built for an ASCII host; <ctype.h> and the size of a token are arguments (`Machine`).
--   Tokn/Types, Tokn/Chars  tokens, the context, character classes, the keyword table, advance and peek
--   Tokn/Emit               grow_tokens, grow_upbuf, emit, emit_eoc, and the storage that they hold
--   Tokn/Skip               skip_comment, skip_inline_ws
--   Tokn/Scan, Tokn/Symbols scan_string, scan_symbol_or_number, looks_like_number
--   Tokn/Run                scan_operator, tokenize, irx_tokn_run, irx_tokn_free
--   Tokn/Lexeme             a description of the tokens of a source, which the run is held to
-- A cursor is what is left of the source and its place; the tokens stand latest first until the run ends.
-- The loops over characters are structural. `skip_inline_ws` and `tokenize` run on fuel, one more than the
-- characters left, and every turn reads at least one; the doubling of a buffer runs on the bytes needed.
--
-- Prelude has the helpers that these share: Boolean tests, lists and signed integers over the native
-- numbers, byte strings. The modules called Tests hold runs on concrete data.
--
-- All other loops are structural recursions over the lists that the source walks.
--
-- Not modelled: vpool_destroy; irx_arith_format of src/irx#arith.c; the EBCDIC logical-not of the tokenizer;
-- the parser, bytecode compiler and machine, the built-in functions, and the glue to the host. lstring370 is not in the repository: of it only the success or failure of an allocation is used.

pub mod Prelude
pub mod VarPool
pub mod Arith
pub mod Ctrl
pub mod Bif
pub mod Stor
pub mod Tokn
