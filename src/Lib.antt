-- ===== src/Lib.antt =====
-- OPMES, a search engine for mathematical formulas (search/, parser/, index/, web/, common/), in C.
--
-- A formula is parsed into an operation tree (parser/), whose leaf-root paths are written to
-- posting files in a directory tree (index/); a query walks the directories of its own paths in
-- parallel, merges the posting files by formula ID, scores each formula that all of them name, and
-- keeps the best in a bounded ranking list (search/).
--
-- Search/MinHeap models search/minheap.c. The heap is an array with `size`, `end` and the callback;
--   a function takes it and returns the new one, with a fault for an access outside the array.
-- Search/Rank models search/rank.c and the page printing of search/main.c. A pointer to a rank item
--   is modelled by the item with the address of its list node.
-- Search/PosMerge models the merge of posting files, search/posmerge.c, with the block size
--   BRWBLK_RD_NUM and the callback as parameters; an open file is the list of items still to be read,
--   so fread gives the next items and leaves what is behind them in the buffer.
-- Search/Score models search/score.c: the searcher with its query paths and relevance stacks, the
--   score tree, and the cache of scores. Arrays of a fixed size are functions with a fault outside
--   their size; a pointer into one is its index.
-- Search/DirMerge models search/dirmerge.c, the walk of several directory trees in parallel; what
--   opendir and readdir give, and the callback, are parameters. Search/DirMerge/Trees says which
--   trees a file system holds and what they have in common.
-- Parser models parser/tex-tr.c, the operation tree: a node is its fields and the list of its sons,
--   and a walk with a callback is a function on the tree. The names of tokens, which a script
--   makes, and the "%d" of sprintf are parameters.
--   Parser/ScanBuf has cp_parse of parser/parser-util.c, with the generated parser as a parameter.
-- Common/LinkedList models common/list.h: a list is a ring of nodes in a memory of links, NULL is the
--   address 0, and an access to it or to a freed node is a fault.
-- Search/Query models search/search.c: the order of the query paths, the merge nodes, and cp_search
--   with its callbacks, which joins the parts above. `Env` has what the system gives it.
-- Index models index/index.c, index/index-util.c and the lookup of index/db-wraper.c: the run of the
--   indexer takes the databases and the disk, which is the calls of mkdir and the posting files, and
--   returns the new ones with what main returns. Tokyo Cabinet is a record of operations with the
--   laws that its manual gives.
-- Web models web/main.c: the query string, and the HTML as a list of its parts, with the links from
--   page to page.
-- Base has what the parts share: Boolean tests, arrays, 32-bit words, signed numbers, and `Exec`,
--   which says how a call ends.
--
-- Unsigned 32-bit numbers are natural numbers with the wrap-around written out; arrays have fewer
-- than 2 ^ 31 entries where a theorem needs that no index wraps. A loop that is not over a list
-- runs on fuel: min_shift_down has `end + 1` rounds, since its index grows and stays below `end`;
-- minheap_sort has `end` rounds, since each takes one off; minheap_insert has `end` rounds, since
-- the index falls; print_all_pages has one round more than there are items; jump reads a block in
-- each round but the last, and a round of posmerge or of its loop over a match takes an item of a
-- file or of a buffer. The theorems state that the result is returned, so the fuel is enough.
--
-- The walk of a series has a round for each entry and one more, and dir_merge has one for each level
-- of the first directory tree.
--
-- A walk over a linked list has a round for each node, which the theorems take as a hypothesis; the
-- list of query paths is the sequence of its nodes, which list_sort permutes.
--
-- Not modelled: the trees of common/ as pointers, the freeing of memory, and the counter of scanned
-- items, whose steps are a field of `Env`. Out of reach: the lexer and the grammar, Tokyo Cabinet,
-- files and directories, timers and traces, printing for the user (probe.c and the text of
-- tex_tr_print among it).
pub mod Base
pub mod Common
pub mod Index
pub mod Parser
pub mod Search
pub mod Web
