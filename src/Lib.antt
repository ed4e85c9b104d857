-- ===== src/Lib.antt =====
-- The front end of the Crack executor: the tokenizer, the parser of expressions, the stream format of
-- its cached meta-data, and parts of its model of types, functions and constants.
--
-- The executor (Crack.cc) compiles a source file by a parser (parser/Parser.cc) that pulls tokens
-- from a tokenizer (parser/Toker.cc). A module that was compiled is kept in a cache, written by a
-- serializer (model/Serializer.cc) and read by a deserializer (model/Deserializer.cc). The body of a
-- generic type is a list of tokens (model/Generic.cc): it is stored in the cache, and replayed into a
-- tokenizer at each instantiation. The parser builds types (model/TypeDef.cc), sets of functions of
-- one name (model/OverloadDef.cc), from which it resolves calls, and constants (model/IntConst.cc).
--
-- The files:
--   Location, Token: parser/Location.h and parser/Token.h. A reference-counted location is its
--     value. Token/Codes gives the enumeration's numbers back as members.
--   Toker: parser/Toker.h and parser/Toker.cc. Toker/State has the fields as a record and getChar,
--     ungetChar, getLocation and initIndent; Toker/Indent the three functions on indentation;
--     Toker/Scan the local variables of readToken; Toker/Step one function for each case of its
--     switch; Toker/Read its loop; Toker/Get getToken, putBack and continueIString. Toker/Putback sets
--     getChar against ungetChar.
--   Toker/Safety: a round of the loop against the invariant of each state; Toker/Safety/Loop: the
--     loop. Toker/Lexes: texts that are known, run through the loop.
--   Grammar: the expressions of parser/Parser.cc. Grammar itself has the monad, getToken and the
--     errors; Grammar/Kinds the conditions on token types and the table of precedences;
--     Grammar/Interface what the parser asks of the context and the builder; Grammar/Operators the
--     calls of operators, makeAssign, wrapInNullCheck and parseConstInt; Grammar/Members parseScoping,
--     parseOperSpec and the members of parsePostDot; Grammar/Formats the calls of parseIString;
--     Grammar/Rounds the other steps that call no parsing function; Grammar/Descent the functions
--     that call each other: parseExpression, parseSecondary, parsePrimary, parsePostDot,
--     parseMethodArgs, parseSpecializer, parseAnyDef, parseTypeSpec, parseTypeof, parseDefine,
--     parseConstSequence and parseIString. The other files hold what is proved of them.
--   Serial: Serial/Writer is model/Serializer.cc, Serial/Reader is model/Deserializer.cc; the files
--     beside them hold what the two say of each other.
--   Generic: addToken and replay of model/Generic.cc. Generic/Write has serializeToken,
--     serializeFullToken and the loops of serialize over the body, Generic/Read deserializeToken and
--     the loop of deserialize; the imports and the parameters of a generic are left out. The files
--     beside them hold what the two say of each other.
--   Types: the hierarchy of model/TypeDef.cc and the functions that walk it. Types/Derivation,
--     Types/Paths and Types/Ancestors hold what is proved of each walk.
--   Overloads: model/OverloadDef.cc and the matching of model/FuncDef.cc; Overloads/Matches has the
--     resolution by arguments, Overloads/Search and Overloads/Deleted what is proved of it.
--   Consts: model/IntConst.cc. Consts/Signed has the integers and int64_t, Consts/Fold the folding,
--     Consts/Convert the conversion to other types; Consts/Wraps sets sums, differences and products
--     against the arithmetic of words, and the other files hold what else is proved.
--   Namespaces: model/Namespace.cc; the files beside it hold what is proved of lookup, of aliasAll
--     and of removeDef.
--   Modules: Modules/Names has parseCanonicalName and joinName of model/ModuleDef.cc, with what is
--     proved of them beside it, Modules/Digest util/SourceDigest.cc, Modules/Lazy addImport and
--     getImport of model/LazyImports.cc.
--   Imports: model/Import.cc and model/ImportedDef.cc, with the optional blocks of model/ProtoBuf.h
--     and model/NestedDeserializer.h; Serial/Codec composes writers and readers, and Serial/Leaves
--     says how much of its stream a read leaves.
--   Prelude: numbers, lists, bytes and the result type of code that throws. Tests: the theorems at
--     concrete inputs.
--
-- Characters are bytes, and text is a list of them. A stream is the bytes that it has not delivered.
-- Lines and columns are natural numbers without a bound, so a source of 2 to the 31 lines or columns
-- is out of the model; a column that the source could count below 0 stays at 0. An uninitialised
-- local variable is `none` and reading it is a fault, as is an assertion that fails. The array symchars
-- is the list of the characters written to it.
-- The loop of readToken runs on fuel, twice the characters left and two more: a round reads a
-- character, or puts one back and moves to a state that reads it. A number is written in at most five
-- rounds of seven bits and read in at most six.
-- Of a digest the bytes that went into it are kept: the hash itself (util/md5.c) is not modelled, nor
-- is the tracing.
-- A type, an overload and a name space are trees: what is above them is part of them, with its
-- address, so a cycle of types is out of the model, and recursion ends without fuel. To the overloads
-- expressions are an interface of the three methods that matching calls. What C++ leaves undefined, an overflow of int64_t or a shift by
-- a wrong amount, is a result of its own.
-- The address that an allocation gives to the copy of an overload is a function of the name. The loop
-- over an optional block runs on fuel, the block's length and one more, since a round reads a byte.
-- The flag of a private definition that an alias exposes is left out, as is the serialization of
-- types, functions, name spaces and modules.
-- The parser's functions run on fuel, a unit for a call; thirty units for each token to come and two
-- are enough. Its context and the builder are an interface, and so are the parser's own helpers that
-- read no token and only ask those (createVarRef, createAssign, checkForRedefine,
-- checkForExternalOverload, and which l-values makeAssign takes), and the definition that stands in a
-- lambda or a class expression, which reads some tokens. Warnings are left out. An annotation, which
-- runs compiled code, is taken to have been replaced by what it puts into the stream.
-- The matching of arguments is FuncDef's own; the override of UnsafeCastDef (builder/llvm/Ops.h),
-- which takes any single argument, is left out. Where a token's type code is unknown the source goes
-- on with it; the model of Generic/Read stops.
-- Statements and declarations, contexts, the construction of modules and the code generation are not
-- modelled.
pub mod Prelude
pub mod Location
pub mod Token
pub mod Toker
pub mod Serial
pub mod Generic
pub mod Types
pub mod Overloads
pub mod Namespaces
pub mod Modules
pub mod Imports
pub mod Consts
pub mod Grammar
pub mod Tests
