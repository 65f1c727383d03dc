-- ===== src/Lib.antt =====
-- naaz, a symbolic execution engine: bit-vector constants, expressions, the builder that simplifies
-- expressions as it makes them, the constraints of a path, the search for a state, the table
-- of open files, and the address space of a loaded program.
--
-- An expression is a tree over symbols and constants (expr/Expr.hpp). A constant has a width, and
-- its value is kept in a `uint64_t` up to 64 bits and in a GMP integer above (expr/BVConst.cpp). The
-- builder (expr/ExprBuilder.cpp) makes every expression of the engine: it checks the widths, folds
-- constants by the operations of `BVConst`, flattens and sorts the children of commutative
-- operations and returns the one object that stands for the result. The executor asks the builder
-- for the effect of each instruction, and the solver hands the expressions to Z3. The loader
-- registers the segments of a program in the address space, from which the memory of a state reads
-- the bytes that were never written. The constraint manager (solver/ConstraintManager.cpp) keeps the
-- tests that a path went through and picks those that a query depends on. The executor manager
-- (executor/ExecutorManager.hpp) runs blocks from a state and lets an exploration technique choose
-- which state goes on.
--
-- The files:
--   Base, Base/*        shared names; tests and integers over the native numbers, powers of two, bit
--                       operations digit by digit, results of code that may end the process
--   Platform            the GMP calls of expr/BVConst.cpp with their documented laws, and the value
--                       that an uninitialised member has; Platform/Exact is an instance
--   BvConst             `BVConst` of expr/BVConst.hpp, `adjust_bits` and the constructors;
--                       BvConst/Word, Arith, Resize, Shift, Compare have the operations of
--                       expr/BVConst.cpp under the names of the methods
--   BvConst/Represents  what it means that a constant holds a number, and the lemmas on
--                       `adjust_bits`; BvConst/Modular, Bitwise, Fields, Shifted, Signed, Order have
--                       the theorems on the operations
--   Expr                the classes of expr/Expr.hpp without floating point; Expr/Meaning gives the
--                       value of an expression under an assignment of its symbols, as SMT-LIB
--                       defines it, and when widths agree; Expr/Bounds relates the two
--   Builder             `mk_const`, `mk_zext`, `mk_sext`, `mk_ite`, `mk_neg` and `mk_not` of
--                       expr/ExprBuilder.cpp; Builder/Nary has `mk_mul`, `mk_and`, `mk_or` and
--                       `mk_xor`; Builder/Relational has the comparisons and the Boolean operations;
--                       Builder/Division has division and remainder
--   Builder/Fold, Propagation, Children, Loops, Nodes
--                       what the operations on several children share: the value of a vector of
--                       children, the loops of constant propagation and the final checks
--   Builder/Products, Masks, Toggles, Widths, Comparisons, Junctions
--                       the theorems on the builder
--   AddressSpace        `Segment` and the readers of loader/AddressSpace.cpp;
--                       AddressSpace/Readers has the theorems on them
--   Interning           `eq` of the classes of expr/Expr.cpp; Interning/Store has `get_or_create` and
--                       `collect_garbage` of expr/ExprBuilder.cpp
--   Interning/Alike, Canonical, Interned, Vectors
--                       what equal expressions share, the lemmas on tables, the theorem on
--                       `get_or_create` for any `eq`, and its instance for bit vectors
--   Constraints         `ConstraintManager` with `add`, `get_dependencies` and both `pi`;
--                       Constraints/Cache has `get_involved_inputs` with its shared cache
--   Constraints/Sets, Agree, Remembered, Waiting, Closure, Filed, Conjoined, Slices
--                       the members of its sets, the symbols that a value depends on, the cache, the
--                       loop of `get_dependencies`, the indices, the conjunctions, and what may be
--                       left out of a query
--   Files               `File`, `FileHandle` and `FileSystem` of state/File.cpp and
--                       state/FileSystem.cpp; Files/Tables has maps, Files/Descriptors and Operations
--                       the theorems on the table of descriptors
--   Exploration         `explore` and `gen_paths` of executor/ExecutorManager.hpp over the virtual
--                       functions of executor/ExplorationTechnique.hpp; Exploration/Techniques has the
--                       four techniques, and Exploration/Policies and Coverage show that they keep
--                       what the interface asks
--   Exploration/Vectors, Kept, Search, Answers, Paths, Shortest, Finds
--                       vectors and bags, the loop over the successors, the invariant of the search,
--                       the theorems on `explore`, on `gen_paths`, and on breadth first search
--   Tests               the theorems at concrete constants and expressions
--
-- An operation that calls `exit_fail` or lets an exception escape gives `exit_fail`; a shift that C++
-- leaves undefined gives `undefined`; every other run gives `ok`. An operation of `BVConst` changes
-- its receiver, and the model returns the new value of it. A `uint64_t` is a number below 2 ^ 64 with
-- its wrap-around written out. Widths and shift counts are numbers without a bound, so a width near
-- 2 ^ 32 is not wrapped. An address is a number below 2 ^ 64, and sums of addresses wrap around. A
-- loop over a count or a list is a recursion on it. Two loops take fuel: that of `get_dependencies`,
-- for which the symbols of the expression and the recorded dependencies are enough, and the main loop
-- of the search, which need not end for a program with endless executions. It ends where each block's
-- successors weigh less together than the state, and breadth first search ends where there is a
-- target, unless an earlier block ends the process.
--
-- The search takes what `execute_basic_block` and `satisfiable` compute as functions of the state,
-- where the former may end the process; the executor changes states in place, and no state is shared
-- between two entries of a queue. `std::rand`
-- is a sequence of numbers up to `RAND_MAX`, and XXH64 is a function of the numbers that it is fed.
-- The files take the memory that holds their bytes, and their names, as interfaces; `read` and `write`
-- of the memory may end the process, as state/MapMemory.cpp does on length 0 and on bits that are no
-- whole bytes. A descriptor is a number, so a negative argument, which is never open, has no
-- counterpart.
--
-- The constructor of a constant from a text takes `std::stoul` and the constructor of `mpz_class` as a
-- record of two functions from a text and a base to the integer that the text spells.
--
-- The nodes of `SDivExpr`, `UDivExpr`, `SRemExpr` and `URemExpr` have their `m_size` as a field, which
-- no constructor sets: the builder gives it the value that Platform has for an uninitialised member,
-- and `clone` another. Well-sized expressions have no such node, since the widths that the builder
-- compares are then arbitrary. `eq` goes by the kinds that the classes have, which are the same for the
-- two shifts to the right, and for each division and its remainder.
--
-- The builder's functions return trees. `get_or_create` keeps at most one live object for each, which
-- Interning models with the addresses of objects and with `hash` as any function; elsewhere `==` of
-- two pointers is equality of the trees, of which divisions have the fields that they hold. The order of addresses, by which `std::sort` and `std::set`
-- go, is an argument of the functions, and nothing is assumed of it.
--
-- Not modelled: floating point, the symbols' names, the hashes of expressions, the remaining
-- constructors of the builder (sums, subtraction, equality, extraction, concatenation, shifts), the
-- evaluation and printing of expressions, and the rest of the engine (state, memory, the
-- solver and its calls of Z3, the execution of P-code, the parsers of binaries, symbols and
-- relocations, models of library functions), which is built on these parts.
pub mod AddressSpace
pub mod Base
pub mod Builder
pub mod BvConst
pub mod Constraints
pub mod Exploration
pub mod Expr
pub mod Files
pub mod Interning
pub mod Platform
pub mod Tests
