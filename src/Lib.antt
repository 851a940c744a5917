-- ===== src/Lib.antt =====
-- Two parts of YCPL. The managed runtime, bootstrap/cpp/runtime/yc_runtime.c, that compiled programs
-- and the compilers link with: allocation with ownership by frames, discovery of source files, and the
-- running of programs. And the front of the seed compiler in C++, bootstrap/cpp/src: its lexer, which
-- turns a source into tokens, its parser, which asks for them one by one and looks some ahead, and its
-- reader of project files. Not modelled are the search for modules and the code
-- generation of the seed compiler, of which the latter builds on LLVM, the Rust seed, the self-hosted compiler, which is
-- written in YCPL, the standard library, and the editors.
--
-- Parts and files:
-- - Base: names of the libraries passed on, lists and tests over native numbers, bit masks.
-- - Address: addresses of headers (`YcAllocHeader`), `header + 1` and `yc_ptr_hash`. Pointers and
--   `size_t` have 64 bits, and a header 104 bytes.
-- - Registry: the hash table of live headers. `Registry` holds `yc_registry`, `yc_registry_cap`,
--   `yc_registry_count` and `yc_registry_used`; the array is a list of addresses, 0 for an empty slot
--   and 1 for a tombstone. `resize`, `ensure`, `insert`, `remove` and `header_from_ptr` are the
--   functions `yc_registry_*` and `yc_header_from_ptr`. A probe runs on fuel, the capacity, which is
--   enough since a table in use has an empty slot. Children: Probe (the walk round the table), Tally
--   (counts of slots), Table (the invariant), Remove, Lookup, Insert, Resize.
-- - Ranges: the treap behind `yc_ranges`, a data type since its nodes have one parent each, with
--   `yc_range_merge`, `yc_range_insert`, `yc_range_remove` and `yc_range_find`. Children: Steps, Order,
--   Contents, Heap, Update, Find.
-- - Links: doubly linked lists of headers, linked at the front and unlinked. Children: Chain (lists as
--   lists of addresses), Push, Unlink, Family (many lists that share the links), Leave.
-- - Memory: the fields of all headers and the globals, as one record of functions of addresses, and
--   `yc_link`, `yc_unlink`, `yc_frame_heads_ensure`, `yc_frame_link`, `yc_frame_unlink` and
--   `yc_detach_owner`. Children: Frames, Linked, Owners.
-- - Ownership: `yc_owner_root`, `yc_is_owner_ancestor`, `yc_move_graph_to_frame`, `yc_link_owner` and
--   `yc_attach_child` from the headers on. The walks run on fuel; more than the longest owner chain,
--   and for walks down also than the most children of one header, is enough. Children: Roots, Depth,
--   Moved, Moves, Attach.
-- - Allocation: `yc_alloc`, `yc_calloc`, `yc_release`, the frames' push and pop, and the shutdown.
--   `Library` is what the runtime asks of the C library. `yc_release_header` runs on fuel; more than the
--   height of the ownership and the most children of one header together is enough. Children: New,
--   Fresh, Enter, Shutdown, Tracked (the invariant of all lists and indices, and a header that leaves
--   them), Sound (that invariant with the bounds of the ownership), Grown and Allocates (`yc_alloc`),
--   Attaches, Heights, Detached, Below (what is below a header), Released and Release (the children),
--   Whole (`yc_release_header`), Twice (`yc_release`), Popped and Pop (`yc_frame_pop`).
-- - Interface: the entry points that look headers up, such as `yc_realloc`, `yc_attach_child` and
--   `yc_move_to_ancestor`. What the allocated bytes hold is outside the model.
--   Children: Keeps (release and the frames), Attaching, Moving, Rooted, Owner, Standing and Parent (the
--   others), Steps (all of them as one step relation, where each call has its own answers of the C
--   library), Reached. `Step` has every entry point that changes memory but `yc_keep_string`, which is an
--   allocation and a copy of bytes, and the shutdown, which leaves the fields of the freed headers as
--   they are. In `Step` the frames are granted the memory for their array, since a header that is in no
--   list of a frame is outside the invariant.
-- - Text: C strings as lists of bytes.
-- - Streams: `yc_fs_read_all` and `yc_fs_write_all`. A stream is its bytes and whether it fails in the
--   end; the loops run on fuel and on the answers of `fwrite`. Child: Whole.
-- - Files: `YcPathList`, `YcVisitedDirectoryList` and the functions that fill them.
-- - Discovery: `yc_collect_yc_paths` and what returns its result. The file system is a record of what
--   `stat` and `readdir` answer for each path, and the allocator of what it answers for each. The walk
--   runs on fuel for directories in one another; more fuel than there are directories is enough.
--   `qsort` is an insertion sort by `strcmp`.
-- - Process: `yc_make_argv`, `yc_process_run`, `yc_unpack_argv`, `YcArgVector`, `yc_process_capture` and
--   `yc_native_link`. The answers of `waitpid` and `read` are lists, and `none` stands for a child that
--   does not end. The child side of `fork`, which replaces its program, is outside the model.
--   Children: Words and Splits (the words of a text), Capture and Reads (each read in its block), Unpack
--   and Link.
-- - Token: `TokenType`, `Position`, `Token` and `token_type_to_string` of lexer/token.h.
-- - Lexer: `lex::Lexer` of lexer/lexer.cpp. Children: Cursor (the state, with the text from `current` on,
--   and the functions that read and advance it; Moves and Reached say what was consumed), Keywords, Skip
--   (`skip_whitespace_and_comments`; Gaps and Nested describe blanks and comments, Rounds and Whole are
--   on one round and on the loop), Literals (`identifier_or_keyword`, `number_literal`,
--   `string_literal`, `char_literal`; Numbers, Quoted), and Scan (`scan_token`, `next_token`, `peek`,
--   `tokenize_all`; Operators, Lexemes, Printed, Words, Sentences, Whole, Ahead). The `switch` over the
--   operators is a function for those of two bytes and one for those of one byte, tried in that order.
--   The calls of `error_cb` are a list in the state. The loops over the text go by the text that is
--   left; the loop over white space and `tokenize_all` run on one more than its length, and each of
--   their rounds but the last reads a byte. Lines and columns are natural numbers, and `isalpha` and
--   its like are those of the C locale.
-- - Ast: the tree of ast/ast.h. A pointer that may be null is two constructors or an `Option`.
-- - Parser: `Parser` of parser/parser.cpp. The tokens that `next_token` will give are a list in its state,
--   and so are the calls of `error_cb`. Children: Cursor (`advance`, `check`, `expect` and its like),
--   Types (`parse_type`; Reads, Spelled and Whole are on types and the tokens that they are written
--   with), Strings (`decode_string_literal_content`, `callee_path_for_parser`), Primary
--   (`parse_primary` and `parse_postfix`, with literals and calls), Expressions (the levels of operators,
--   `parse_unary` and `parse_expression`; Grammar, Levels and Whole are on expressions and their tokens),
--   Simple and Statements (`parse_stmt`, `parse_block`, `parse_switch_stmt`; Assigned), Declarations (modules,
--   imports, structs, enums and names of types; Stuck and Fields are on wrong tokens in structs and enums),
--   Functions (`parse_function_decl`) and Program (`parse_decl`, `parse_program`).
--   `parse_expression` and `parse_type` run on fuel, and so do their loops; two more than the tokens that
--   are left are enough, since each call or round reads one. Statements run on fuel in the same way, on
--   one more, and so do programs. What is wrong in the tokens is an error in the state, and `none` stands
--   for want of fuel. The loops over the fields of a struct and the variants of an enum may go round
--   without reading a token. Total is about what each function leaves of the tokens (Types, Primary,
--   Literals, Operands, Expressions, Simple, Statements, Whole, Functions, Program).
-- - Front: the lexer and the parser together. The parser asks the lexer for tokens one by one; here it is
--   given the list of them all.
-- - Json: `JsonValue` and `SimpleJsonParser` of module/json.h and module/json.cpp, which read project
--   files. An exception is a result, doubles and `stod` are parameters, and values in one another run
--   on fuel, one more than the bytes of the text, since each value and each round of a loop reads a
--   byte. Children: Shrinks and Ends (how much is left), Printed (text of values; Strings, Numbers,
--   Lists, Firsts, Whole), Stored (what stands under a key). Opening the file is left out.
-- - Tests: runs of the definitions, and the theorems at concrete inputs.
--
-- Whether `calloc`, `realloc` and `malloc` give memory is an argument wherever the code asks. What is
-- assumed of them is a hypothesis: no block is larger than the address space (`Honest`) or half of it
-- (`BlocksFit`).
pub mod Base
pub mod Address
pub mod Registry
pub mod Ranges
pub mod Links
pub mod Memory
pub mod Ownership
pub mod Allocation
pub mod Interface
pub mod Text
pub mod Streams
pub mod Files
pub mod Discovery
pub mod Process
pub mod Tests
pub mod Token
pub mod Lexer
pub mod Json
pub mod Ast
pub mod Parser
pub mod Front
